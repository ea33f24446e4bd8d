-- ===== src/DirtyState/Lookup.antt =====
-- The table as a map from names to flags: what `dirty_state_set` does to it.
use qemu_snapshot_web_manage.Prelude.{
  ℕ, ◌<◌, ◌≡◌, ◌≢◌, ◌⊎◌, refl, ◌∙◌, inl, inr, Bool, false, not, Option, none, some, List, [], ◌∷◌,
  ◌++◌, arith, length, take-all, Bytes, snprintf_s, leb, strcmp_eq, strcmp_eq_iff, if◌then◌else◌,
  Bool-cases,
}
use qemu_snapshot_web_manage.Json.{Json}
use qemu_snapshot_web_manage.DirtyState.Disk.{World, Outcomes}
use qemu_snapshot_web_manage.DirtyState.Table.{Entry, set_clean_at, clean_at, dirty_state_find}
use qemu_snapshot_web_manage.DirtyState.{State, dirty_state_set, set_found}
use qemu_snapshot_web_manage.DirtyState.WellFormed.{FitsRow}

-- The flag of the first row with the name.
abbrev pub flag_of : Bytes → List Entry → Option Bool
flag_of name [] = none
flag_of name (e ∷ es) = if strcmp_eq e.name name then some e.is_clean else flag_of name es

-- What `dirty_state_find` says of the map.
pub data Found (name : Bytes) (t : List Entry) : Option ℕ → Type 0 where
  untracked : flag_of name t ≡ none → Found name t none
  tracked :
      {i : ℕ} (b : Bool)
      → flag_of name t ≡ some b
      → ((c : Bool) → clean_at t i c ≡ (if c then b else not b))
      → ((j : Bytes) (c : Bool)
          → flag_of j (set_clean_at t i c) ≡ (if strcmp_eq name j then some c else flag_of j t))
      → Found name t (some i)

Found-cons :
    (e : Entry) (name : Bytes) (t : List Entry) (r : Option ℕ)
    → strcmp_eq e.name name ≡ false
    → dirty_state_find name t ≡ r
    → Found name t r
    → Found name (e ∷ t) (dirty_state_find name (e ∷ t))
unfolding dirty_state_find set_clean_at clean_at
Found-cons e name t none ne q (untracked h) = rw (ne, q) (untracked (rw ne h))
Found-cons e name t (some i) ne q (tracked b h c s) =
    rw (ne, q)
      (tracked b (rw ne h) c (λ j d.
        ground
          (arith, s j d, strcmp_eq_iff e.name name, strcmp_eq_iff e.name j, strcmp_eq_iff name j)))

pub dirty_state_find-Found :
    (name : Bytes) (t : List Entry) → Found name t (dirty_state_find name t)
unfolding dirty_state_find set_clean_at clean_at
dirty_state_find-Found name [] = untracked refl
dirty_state_find-Found name (e ∷ t) = elim (Bool-cases (strcmp_eq e.name name)) [
  | inl hit ↦ rw hit (
      tracked e.is_clean (rw hit refl) (λ c. ground arith)
        (λ j c.
          ground (arith, strcmp_eq_iff e.name name, strcmp_eq_iff e.name j, strcmp_eq_iff name j)))
  | inr miss ↦
      Found-cons e name t (dirty_state_find name t) miss refl (dirty_state_find-Found name t)
]

flag_of-append :
    (j : Bytes) (t : List Entry) (e : Entry)
    → flag_of j t ≡ none
    → flag_of j (t ++ e ∷ []) ≡ (if strcmp_eq e.name j then some e.is_clean else none)
flag_of-append j [] e h = refl
flag_of-append j (x ∷ t) e h = ground (arith, flag_of-append j t e)

flag_of-append_ne :
    (j : Bytes) (t : List Entry) (e : Entry)
    → strcmp_eq e.name j ≡ false
    → flag_of j (t ++ e ∷ []) ≡ flag_of j t
flag_of-append_ne j [] e h = rw h
flag_of-append_ne j (x ∷ t) e h = ground (arith, flag_of-append_ne j t e h)

-- The name fits a row, and it has a row or there is room for one.
abbrev pub CanTrack : Bytes → List Entry → Type 0
CanTrack name t = FitsRow name × ((flag_of name t ≢ none) ⊎ (length t < 128))

flag_of-new_row :
    (name j : Bytes) (t : List Entry) (b : Bool)
    → length name < 256
    → flag_of name t ≡ none
    → flag_of j (t ++ (record { name = snprintf_s 256 name; is_clean = b } ∷ []))
      ≡ (if strcmp_eq name j then some b else flag_of j t)
flag_of-new_row name j t b short new =
    let row : Entry = record { name = name; is_clean = b } in
    let whole : snprintf_s 256 name ≡ name = take-all 255 name (omega arith) in
    rw whole (elim (Bool-cases (strcmp_eq name j)) [
      | inl hit ↦
          let same : name ≡ j = (strcmp_eq_iff name j).0 hit in
          flag_of-append j t row (rw (← same) new) ∙ rw hit refl
      | inr miss ↦ flag_of-append_ne j t row miss ∙ rw miss refl
    ])

module _ (dumps : Json → Bytes) (o : Outcomes) where
  set_found-flag_of :
      (name : Bytes) (b : Bool) (s : State) (w : World) (j : Bytes) (r : Option ℕ)
      → CanTrack name s.table
      → Found name s.table r
      → flag_of j (set_found dumps o name b s w r).state.table
        ≡ (if strcmp_eq name j then some b else flag_of j s.table)
  unfolding set_found
  set_found-flag_of name b s w j none can (untracked new) =
      let room : leb 128 (length s.table) ≡ false = ground arith in
      rw room (flag_of-new_row name j s.table b can.0.1 new)
  set_found-flag_of name b s w j (some i) can (tracked old h c kept) =
      ground (arith, c b, kept j b, strcmp_eq_iff name j)

  -- A mark sets the flag of its machine and leaves that of every other machine.
  pub dirty_state_set-flag_of :
      (name : Bytes) (b : Bool) (s : State) (w : World) (j : Bytes)
      → CanTrack name s.table
      → flag_of j (dirty_state_set dumps o (some name) b s w).state.table
        ≡ (if strcmp_eq name j then some b else flag_of j s.table)
  unfolding dirty_state_set
  dirty_state_set-flag_of [] b s w j can = absurd (omega (arith, can.0.0))
  dirty_state_set-flag_of (c ∷ name) b s w j can =
      set_found-flag_of (c ∷ name) b s w j (dirty_state_find (c ∷ name) s.table) can
        (dirty_state_find-Found (c ∷ name) s.table)
