-- ===== src/Routes/Form/Fields.antt =====
-- Where `form_value` finds a value: its search by `strstr` is a walk over the bytes of the body.
use qemu_snapshot_web_manage.Prelude.{
  ℕ, zero, suc, ◌+◌, ◌-◌, ◌<◌, ◌≤◌, ◌≡◌, ◌≢◌, refl, sym, ap, ◌∙◌, inl, inr, Bool, true, false, not,
  ◌&&◌, Option, none, some, [], ◌∷◌, ◌++◌, ◌==◌, arith, Bytes, Without, length, length-append,
  length-drop, take, drop, before, is_prefix, strstr, Bool-cases, Option-cases, if◌then◌else◌,
}
use qemu_snapshot_web_manage.Util.Url.{url_decode}
use qemu_snapshot_web_manage.Routes.Form.{last_byte, starts_with_equals, form_loop, form_value}
use mathlib.Core.Option.{some-injective}

-- The value of the first field with the key: a field begins at the start or behind `&`, with the key and
-- `=`, and its value ends before the next `&`. `prev` is the byte before the text.
unfoldable pub field_value : ℕ → Bytes → Bytes → Option Bytes
field_value prev [] key = none
field_value prev (c ∷ s) key =
    let rest = field_value c s key in
    if prev == b'&' && is_prefix (c ∷ s) (key ++ b'=' ∷ [])
    then some (before b'&' (drop (length key + 1) (c ∷ s)))
    else rest

is_prefix-both :
    (s a b : Bytes) → is_prefix s (a ++ b) ≡ (is_prefix s a && is_prefix (drop (length a) s) b)
unfolding is_prefix
is_prefix-both s [] b = refl
is_prefix-both [] (x ∷ a) b = refl
is_prefix-both (y ∷ s) (x ∷ a) b = ground (arith, is_prefix-both s a b)

is_prefix-equals : (s : Bytes) → is_prefix s (b'=' ∷ []) ≡ starts_with_equals s
unfolding is_prefix
is_prefix-equals [] = refl
is_prefix-equals (c ∷ s) = ground arith

is_prefix-split : (s a : Bytes) → is_prefix s a ≡ true → s ≡ a ++ drop (length a) s
unfolding is_prefix
is_prefix-split s [] h = refl
is_prefix-split [] (x ∷ a) h = cc
is_prefix-split (y ∷ s) (x ∷ a) h = ground (arith, is_prefix-split s a)

and_false : (b : Bool) → (b && false) ≡ false
and_false true = refl
and_false false = refl

-- A byte of a text without `&`, or the byte before it.
last_byte-ne : (prev : ℕ) (s : Bytes) → prev ≢ b'&' → Without b'&' s → last_byte prev s ≢ b'&'
unfolding last_byte
last_byte-ne prev [] h w = h
last_byte-ne prev (c ∷ s) h w = last_byte-ne c s w.0 w.1

equals_false : (a b : ℕ) → a ≢ b → (a == b) ≡ false
equals_false a b h = ground arith

-- The skipped bytes of a text whose rest is `q`.
abbrev skipped : Bytes → Bytes → Bytes
skipped p q = take (length p - length q) p

skipped_self : (q : Bytes) → skipped q q ≡ []
skipped_self q = let none_left : length q - length q ≡ 0 = omega arith in rw none_left refl

skipped-cons : (c : ℕ) (s q : Bytes) → length q ≤ length s → skipped (c ∷ s) q ≡ c ∷ skipped s q
skipped-cons c s q h =
    let more_left : suc (length s) - length q ≡ suc (length s - length q) = omega (arith, h) in
    rw more_left refl

length-strstr : (s needle q : Bytes) → strstr s needle ≡ some q → length q ≤ length s
unfolding strstr
length-strstr [] needle q e = ground (arith, e)
length-strstr (c ∷ s) needle q e = ground (arith, length-strstr s needle q)

strstr-prefix : (s needle q : Bytes) → strstr s needle ≡ some q → is_prefix q needle ≡ true
unfolding strstr
strstr-prefix [] needle q e = elim (Bool-cases (is_prefix [] needle)) [
  | inl hit ↦ let same : [] ≡ q = some-injective [] q (rw hit at e) in rw (← same) hit
  | inr miss ↦ let no : none ≡ some q = rw miss at e in cc
]
strstr-prefix (c ∷ s) needle q e = elim (Bool-cases (is_prefix (c ∷ s) needle)) [
  | inl hit ↦ let same : c ∷ s ≡ q = some-injective (c ∷ s) q (rw hit at e) in rw (← same) hit
  | inr miss ↦ strstr-prefix s needle q (rw miss at e)
]

is_prefix-same : (a s : Bytes) → is_prefix (a ++ s) (a ++ b'=' ∷ []) ≡ starts_with_equals s
unfolding is_prefix
is_prefix-same [] s = is_prefix-equals s
is_prefix-same (x ∷ a) s = ground (arith, is_prefix-same a s)

drop-key : (a s : Bytes) → drop (length a + 1) (a ++ s) ≡ drop 1 s
drop-key [] s = refl
drop-key (x ∷ a) s =
    let more : suc (length a) + 1 ≡ suc (length a + 1) = omega arith in rw more (drop-key a s)

module _ (k : ℕ) (ks : Bytes) where
  not_here :
      (prev c : ℕ) (s : Bytes)
      → is_prefix (c ∷ s) (k ∷ ks) ≡ false
      → field_value prev (c ∷ s) (k ∷ ks) ≡ field_value c s (k ∷ ks)
  unfolding field_value
  not_here prev c s h =
      let whole : is_prefix (c ∷ s) ((k ∷ ks) ++ b'=' ∷ []) ≡ false =
        is_prefix-both (c ∷ s) (k ∷ ks) (b'=' ∷ [])
        ∙ ap (λ b. b && is_prefix (drop (length (k ∷ ks)) (c ∷ s)) (b'=' ∷ [])) h in
      rw (whole, and_false (prev == b'&')) refl

  not_behind :
      (prev c : ℕ) (s : Bytes)
      → prev ≢ b'&'
      → field_value prev (c ∷ s) (k ∷ ks) ≡ field_value c s (k ∷ ks)
  unfolding field_value
  not_behind prev c s h = rw (equals_false prev b'&' h) refl

  -- Nothing begins inside a text without `&`.
  inside :
      (prev : ℕ) (s r : Bytes)
      → prev ≢ b'&'
      → Without b'&' s
      → field_value prev (s ++ r) (k ∷ ks) ≡ field_value (last_byte prev s) r (k ∷ ks)
  unfolding last_byte
  inside prev [] r h w = refl
  inside prev (c ∷ s) r h w = not_behind prev c (s ++ r) h ∙ inside c s r w.0 w.1

  -- The walk from a text where the key stands nowhere, and up to the first place where it stands.
  missing : (prev : ℕ) (s : Bytes) → strstr s (k ∷ ks) ≡ none → field_value prev s (k ∷ ks) ≡ none
  unfolding strstr field_value
  missing prev [] e = refl
  missing prev (c ∷ s) e = elim (Bool-cases (is_prefix (c ∷ s) (k ∷ ks))) [
    | inl hit ↦ let no : some (c ∷ s) ≡ none = rw hit at e in cc
    | inr miss ↦ not_here prev c s miss ∙ missing c s (rw miss at e)
  ]

  up_to_key :
      (prev : ℕ) (s q : Bytes)
      → strstr s (k ∷ ks) ≡ some q
      → field_value prev s (k ∷ ks) ≡ field_value (last_byte prev (skipped s q)) q (k ∷ ks)
  unfolding strstr last_byte
  up_to_key prev [] q e = let no : none ≡ some q = e in cc
  up_to_key prev (c ∷ s) q e = elim (Bool-cases (is_prefix (c ∷ s) (k ∷ ks))) [
    | inl hit ↦
        let same : c ∷ s ≡ q = some-injective (c ∷ s) q (rw hit at e) in
        rw (← same, skipped_self (c ∷ s)) refl
    | inr miss ↦
        let later : strstr s (k ∷ ks) ≡ some q = rw miss at e in
        let within = length-strstr s (k ∷ ks) q later in
        rw (skipped-cons c s q within) (not_here prev c s miss ∙ up_to_key c s q later)
  ]

  key_here :
      (behind : Bytes)
      → is_prefix ((k ∷ ks) ++ behind) ((k ∷ ks) ++ b'=' ∷ []) ≡ starts_with_equals behind
  key_here behind = is_prefix-same (k ∷ ks) behind

  -- The value at a place where the key stands: a field, or the walk goes on behind the key.
  at_key :
      (prev : ℕ) (behind : Bytes)
      → Without b'&' (k ∷ ks)
      → field_value prev ((k ∷ ks) ++ behind) (k ∷ ks) ≡ (
          if not (prev == b'&')
          then field_value (last_byte prev (k ∷ ks)) behind (k ∷ ks)
          else if not (starts_with_equals behind)
          then field_value (last_byte prev (k ∷ ks)) behind (k ∷ ks)
          else some (before b'&' (drop 1 behind)))
  unfolding field_value last_byte
  at_key prev behind w =
      let on : field_value k (ks ++ behind) (k ∷ ks)
          ≡ field_value (last_byte k ks) behind (k ∷ ks) =
        inside k ks behind w.0 w.1 in
      elim (Bool-cases (prev == b'&')) [
        | inr inner ↦ rw (inner, on) refl
        | inl starts ↦ elim (Bool-cases (starts_with_equals behind)) [
          | inr no_equals ↦ rw (starts, key_here behind, no_equals, on) refl
          | inl equals ↦ rw (starts, key_here behind, equals, drop-key (k ∷ ks) behind) refl
        ]
      ]

  form_loop-fields :
      (fuel prev : ℕ) (p : Bytes)
      → Without b'&' (k ∷ ks)
      → length p < fuel
      → form_loop fuel prev p (k ∷ ks) ≡ field_value prev p (k ∷ ks)
  unfolding form_loop
  form_loop-fields zero prev p w h = absurd (omega arith)
  form_loop-fields (suc fuel) prev p w h = elim (Option-cases (strstr p (k ∷ ks))) [
    | inl nowhere ↦ rw (form_loop, nowhere) (sym (missing prev p nowhere))
    | inr (q, hit) ↦
        let behind = drop (length (k ∷ ks)) q in
        let whole : q ≡ (k ∷ ks) ++ behind =
          is_prefix-split q (k ∷ ks) (strstr-prefix p (k ∷ ks) q hit) in
        let before_q = last_byte prev (skipped p q) in
        let shorter : length behind < fuel =
          let cut = length-drop (length (k ∷ ks)) q in
          let within = length-strstr p (k ∷ ks) q hit in
          let some_left : length q ≢ 0 = λ none_left.
            let l : length q ≡ length (k ∷ ks) + length behind =
              ap length whole ∙ length-append (k ∷ ks) behind in
            omega arith in
          omega arith in
        let next : form_loop fuel (last_byte before_q (k ∷ ks)) behind (k ∷ ks)
            ≡ field_value (last_byte before_q (k ∷ ks)) behind (k ∷ ks) =
          form_loop-fields fuel (last_byte before_q (k ∷ ks)) behind w shorter in
        let walked = up_to_key prev p q hit in
        rw (form_loop, hit, next, walked, ap (λ r. field_value before_q r (k ∷ ks)) whole)
          (sym (at_key before_q behind w))
  ]

  -- `form_value` for a key without `&` that is not empty is the decoded value of the first field of the body
  -- with that key, and nothing where no field has it. Other places of the body where the key's text stands,
  -- within a longer key or a value, are passed over.
  pub form_value-field_value :
      (body : Bytes)
      → Without b'&' (k ∷ ks)
      → form_value (some body) (k ∷ ks) ≡ url_decode (field_value b'&' body (k ∷ ks))
  unfolding form_value url_decode
  form_value-field_value body w =
      let found = form_loop-fields (suc (length body)) b'&' body w (omega arith) in
      elim (Option-cases (field_value b'&' body (k ∷ ks))) [
        | inl nothing ↦ let same = found ∙ nothing in rw (same, nothing) refl
        | inr (raw, some_raw) ↦ let same = found ∙ some_raw in rw (same, some_raw) refl
      ]
