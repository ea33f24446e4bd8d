-- ===== src/DirtyState/Observe.antt =====
-- What `dirty_state_is_dirty` answers, and what later queries see of it.
use qemu_snapshot_web_manage.Prelude.{
  ℕ, ◌≤◌, ◌≡◌, ◌≢◌, refl, sym, ap, ◌∙◌, inl, inr, Bool, true, false, not, Option, none, some, List,
  [], ◌∷◌, arith, length, All, Bytes, strcmp_eq, strcmp_eq_iff, strcmp_eq_self, if◌then◌else◌,
  Bool-cases,
}
use qemu_snapshot_web_manage.Json.{Json}
use qemu_snapshot_web_manage.VmState.{VmState, running, paused, shutoff, other}
use qemu_snapshot_web_manage.DirtyState.Disk.{World, Outcomes}
use qemu_snapshot_web_manage.DirtyState.Table.{Entry}
use qemu_snapshot_web_manage.DirtyState.{
  State, dirty_state_set, dirty_state_mark_clean, dirty_state_is_dirty, observe_stopped,
}
use qemu_snapshot_web_manage.DirtyState.WellFormed.{
  RowIsNamed, WellFormed, dirty_state_is_dirty-WellFormed,
}
use qemu_snapshot_web_manage.DirtyState.Lookup.{
  flag_of, Found, untracked, tracked, dirty_state_find-Found, CanTrack, dirty_state_set-flag_of,
}

-- What the query promises: a running machine is dirty; otherwise the flag decides, and a machine
-- with no flag is dirty if it is paused.
abbrev pub expected : VmState → Option Bool → Bool
expected running flag = true
expected _ (some is_clean) = not is_clean
expected paused none = true
expected shutoff none = false
expected other none = false

module _ (dumps : Json → Bytes) (o : Outcomes) where
  observe_stopped-expected :
      (name : Bytes) (st : VmState) (s : State) (w : World) (r : Option ℕ)
      → st ≢ running
      → Found name s.table r
      → (observe_stopped dumps o name st s w r).success ≡ expected st (flag_of name s.table)
  unfolding observe_stopped
  observe_stopped-expected name running s w r ne f = absurd (ne refl)
  observe_stopped-expected name paused s w none ne (untracked h) = rw h
  observe_stopped-expected name shutoff s w none ne (untracked h) = rw h
  observe_stopped-expected name other s w none ne (untracked h) = rw h
  observe_stopped-expected name paused s w (some i) ne (tracked b h c k) = rw (h, c true)
  observe_stopped-expected name shutoff s w (some i) ne (tracked b h c k) = rw (h, c true)
  observe_stopped-expected name other s w (some i) ne (tracked b h c k) = rw (h, c true)

  -- The answer of the query, for every name, state of the machine and table.
  pub dirty_state_is_dirty-expected :
      (name : Bytes) (st : VmState) (s : State) (w : World)
      → (dirty_state_is_dirty dumps o name st s w).success ≡ expected st (flag_of name s.table)
  unfolding dirty_state_is_dirty
  dirty_state_is_dirty-expected name running s w = refl
  dirty_state_is_dirty-expected name paused s w =
      observe_stopped-expected name paused s w _ (λ e. cc) (dirty_state_find-Found name s.table)
  dirty_state_is_dirty-expected name shutoff s w =
      observe_stopped-expected name shutoff s w _ (λ e. cc) (dirty_state_find-Found name s.table)
  dirty_state_is_dirty-expected name other s w =
      observe_stopped-expected name other s w _ (λ e. cc) (dirty_state_find-Found name s.table)

  is_dirty-set :
      (name j : Bytes) (b : Bool) (st : VmState) (s : State) (w w' : World)
      → CanTrack name s.table
      → (dirty_state_is_dirty dumps o j st
          (dirty_state_set dumps o (some name) b s w).state
          w').success
        ≡ expected st (if strcmp_eq name j then some b else flag_of j s.table)
  is_dirty-set name j b st s w w' can =
      let after = (dirty_state_set dumps o (some name) b s w).state in
      dirty_state_is_dirty-expected j st after w'
      ∙ ap (expected st) (dirty_state_set-flag_of dumps o name b s w j can)

  expected-stopped : (st : VmState) (b : Bool) → st ≢ running → expected st (some b) ≡ not b
  expected-stopped running b ne = absurd (ne refl)
  expected-stopped paused b ne = refl
  expected-stopped shutoff b ne = refl
  expected-stopped other b ne = refl

  is_dirty-running_state :
      (name : Bytes) (s : State) (w : World)
      → (dirty_state_is_dirty dumps o name running s w).state
        ≡ (dirty_state_set dumps o (some name) false s w).state
  unfolding dirty_state_is_dirty
  is_dirty-running_state name s w = refl

  -- Once a machine has been marked clean, a query while it does not run says clean; once it has been
  -- seen running, a later query while it does not run says dirty.
  pub is_dirty-observed :
      (name : Bytes) (st : VmState) (s : State) (w w' : World)
      → st ≢ running
      → CanTrack name s.table
      → ((dirty_state_is_dirty dumps o name st
            (dirty_state_mark_clean dumps o (some name) s w).state
            w').success
          ≡ false)
        × ((dirty_state_is_dirty dumps o name st
              (dirty_state_is_dirty dumps o name running s w).state
              w').success
            ≡ true)
  unfolding dirty_state_mark_clean
  is_dirty-observed name st s w w' ne can = (
    is_dirty-set name name true st s w w' can
        ∙ rw (strcmp_eq_self name) (expected-stopped st true ne),
    rw is_dirty-running_state (
        is_dirty-set name name false st s w w' can
        ∙ rw (strcmp_eq_self name) (expected-stopped st false ne)),
  )

  -- Seeing one machine run does not change the answer for another.
  pub is_dirty-others :
      (name j : Bytes) (st : VmState) (s : State) (w w' : World)
      → name ≢ j
      → CanTrack name s.table
      → (dirty_state_is_dirty dumps o j st
          (dirty_state_is_dirty dumps o name running s w).state
          w').success
        ≡ (dirty_state_is_dirty dumps o j st s w').success
  is_dirty-others name j st s w w' ne can =
      let differ : strcmp_eq name j ≡ false = ground (arith, strcmp_eq_iff name j) in
      rw is_dirty-running_state (
        is_dirty-set name j false st s w w' can
        ∙ rw differ (sym (dirty_state_is_dirty-expected j st s w')))

  flag_of-long :
      (name : Bytes) (t : List Entry) → 256 ≤ length name → All RowIsNamed t → flag_of name t ≡ none
  flag_of-long name [] long h = refl
  flag_of-long name (e ∷ t) long h = elim (Bool-cases (strcmp_eq e.name name)) [
    | inl hit ↦
        let size = ap length ((strcmp_eq_iff e.name name).0 hit) in
        absurd (omega (arith, size, h.0.1))
    | inr miss ↦ rw miss (flag_of-long name t long h.1)
  ]

  -- A name of 256 bytes or more is cut when it is stored and never found again: a machine that was
  -- just seen running is answered as clean once it is shut off.
  pub is_dirty-long_name :
      (name : Bytes) (s : State) (w w' : World)
      → 256 ≤ length name
      → WellFormed s.table
      → (dirty_state_is_dirty dumps o name shutoff
          (dirty_state_is_dirty dumps o name running s w).state
          w').success
        ≡ false
  is_dirty-long_name name s w w' long v =
      let after = (dirty_state_is_dirty dumps o name running s w).state in
      let v' = dirty_state_is_dirty-WellFormed dumps o name running s w v in
      dirty_state_is_dirty-expected name shutoff after w'
      ∙ ap (expected shutoff) (flag_of-long name after.table long v'.named)
