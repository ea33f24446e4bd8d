-- ===== src/Config/Line.antt =====
-- What one line of a configuration file means.
use qemu_snapshot_web_manage.Prelude.{
  ℕ, ◌≡◌, ◌≢◌, refl, sym, ap, ap₂, ◌∙◌, true, false, some, [], ◌∷◌, ◌++◌, arith, length, drop, All,
  Bytes, Without, before, strchr, before-append, strchr-append, ◌==◌, ◌||◌, min, All-append,
  length-append, take-append, drop-append,
}
use qemu_snapshot_web_manage.Config.{
  Config, is_space, skip_space, strip_end, trim_end, set_value, parse_trimmed, parse_one,
  config_parse_line, config_parse_buffer,
}
use qemu_snapshot_web_manage.Config.Buffer.{config_parse_buffer-last}

abbrev pub IsSpaces : Bytes → Type 0
IsSpaces s = All (λ c. is_space c ≡ true) s

-- A text that does not end in whitespace.
abbrev pub EndsSolid : Bytes → Type 0
EndsSolid [] = Unit
EndsSolid (c ∷ []) = is_space c ≡ false
EndsSolid (c ∷ d ∷ s) = EndsSolid (d ∷ s)

-- A text with no whitespace around it.
abbrev pub IsTrimmed : Bytes → Type 0
IsTrimmed [] = Unit
IsTrimmed (c ∷ s) = (is_space c ≡ false) × EndsSolid (c ∷ s)

-- The name of a setting: not empty, trimmed, without `=`, and no comment or section header.
abbrev pub IsKey : Bytes → Type 0
IsKey [] = ⊥
IsKey (c ∷ s) =
    IsTrimmed (c ∷ s) × Without b'=' (c ∷ s) × ((c == b'#' || c == b';' || c == b'[') ≡ false)

skip_space-append : (sp s : Bytes) → IsSpaces sp → skip_space (sp ++ s) ≡ skip_space s
skip_space-append [] s h = refl
skip_space-append (c ∷ sp) s h = ground (arith, skip_space-append sp s h.1)

strip_end-spaces : (sp : Bytes) → IsSpaces sp → strip_end sp ≡ []
unfolding strip_end
strip_end-spaces [] h = refl
strip_end-spaces (c ∷ sp) h = rw (strip_end-spaces sp h.1) (rw h.0)

strip_end-append :
    (c : ℕ) (s sp : Bytes) → EndsSolid (c ∷ s) → IsSpaces sp → strip_end (c ∷ (s ++ sp)) ≡ c ∷ s
unfolding strip_end
strip_end-append c [] sp h k = rw (strip_end-spaces sp k, strip_end) (rw h)
strip_end-append c (d ∷ s) sp h k = rw (strip_end-append d s sp h k, strip_end)

skip_space-spaces : (sp : Bytes) → IsSpaces sp → skip_space sp ≡ []
skip_space-spaces [] h = refl
skip_space-spaces (c ∷ sp) h = ground (arith, skip_space-spaces sp h.1)

skip_space-solid : (c : ℕ) (s : Bytes) → is_space c ≡ false → skip_space (c ∷ s) ≡ c ∷ s
skip_space-solid c s h = ground arith

-- A trimmed text loses nothing, and the whitespace behind it goes.
trim_end-append : (s sp : Bytes) → IsTrimmed s → IsSpaces sp → trim_end (skip_space (s ++ sp)) ≡ s
trim_end-append [] sp h k = rw (skip_space-spaces sp k) (unfold trim_end in refl)
trim_end-append (c ∷ s) sp h k = rw (skip_space-solid c (s ++ sp) h.0) (trim_solid c s sp h k)
  where
    trim_solid :
        (c : ℕ) (s sp : Bytes) → IsTrimmed (c ∷ s) → IsSpaces sp → trim_end (c ∷ (s ++ sp)) ≡ c ∷ s
    trim_solid c [] sp h k = unfold trim_end in ap (◌∷◌ c) (strip_end-spaces sp k)
    trim_solid c (d ∷ s) sp h k = unfold trim_end in ap (◌∷◌ c) (strip_end-append d s sp h.1 k)

Without-spaces : (sp : Bytes) → IsSpaces sp → Without b'=' sp
Without-spaces [] h = tt
Without-spaces (c ∷ sp) h = (ground arith, Without-spaces sp h.1)

parse_trimmed-setting :
    (cfg : Config) (c : ℕ) (s right : Bytes)
    → (c == b'#' || c == b';' || c == b'[') ≡ false
    → strchr (c ∷ s) b'=' ≡ some (b'=' ∷ right)
    → parse_trimmed cfg (c ∷ s)
      ≡ config_parse_line cfg (trim_end (before b'=' (c ∷ s))) (trim_end (skip_space right))
unfolding parse_trimmed set_value
parse_trimmed-setting cfg c s right setting found = rw setting (rw found refl)

-- A line with an equals sign that is no comment.
parse_one-whole :
    (cfg : Config) (line : Bytes) (c : ℕ) (s right : Bytes)
    → skip_space line ≡ c ∷ s
    → (c == b'#' || c == b';' || c == b'[') ≡ false
    → strchr (c ∷ s) b'=' ≡ some (b'=' ∷ right)
    → parse_one cfg line
      ≡ config_parse_line cfg (trim_end (before b'=' (c ∷ s))) (trim_end (skip_space right))
parse_one-whole cfg line c s right start setting found =
    unfold parse_one in rw start (parse_trimmed-setting cfg c s right setting found)

-- A line `key = value`, with any whitespace around both, sets the key to the value.
pub parse_one-setting :
    (cfg : Config) (key value sp1 sp2 sp3 sp4 : Bytes)
    → IsKey key
    → IsTrimmed value
    → IsSpaces sp1
    → IsSpaces sp2
    → IsSpaces sp3
    → IsSpaces sp4
    → parse_one cfg (sp1 ++ ((key ++ sp2) ++ b'=' ∷ (sp3 ++ (value ++ sp4))))
      ≡ config_parse_line cfg key value
parse_one-setting cfg [] value sp1 sp2 sp3 sp4 k v h1 h2 h3 h4 = absurd k
parse_one-setting cfg (c ∷ key) value sp1 sp2 sp3 sp4 k v h1 h2 h3 h4 =
    let left = c ∷ (key ++ sp2) in
    let right = sp3 ++ (value ++ sp4) in
    let plain : Without b'=' left =
      All-append (λ x. x ≢ b'=') (c ∷ key) sp2 k.1 (Without-spaces sp2 h2) in
    let whole = left ++ b'=' ∷ right in
    let at_key : trim_end left ≡ c ∷ key =
      ap trim_end (sym (skip_space-solid c (key ++ sp2) k.0.0))
      ∙ trim_end-append (c ∷ key) sp2 k.0 h2 in
    let at_value : trim_end (skip_space right) ≡ value =
      ap trim_end (skip_space-append sp3 (value ++ sp4) h3) ∙ trim_end-append value sp4 v h4 in
    let start : skip_space (sp1 ++ whole) ≡ whole =
      skip_space-append sp1 whole h1 ∙ skip_space-solid c _ k.0.0 in
    parse_one-whole cfg (sp1 ++ whole) c ((key ++ sp2) ++ b'=' ∷ right) right start k.2
      (strchr-append b'=' left right plain)
    ∙ ap₂ (config_parse_line cfg) (ap trim_end (before-append b'=' left right plain) ∙ at_key)
        at_value

parse_trimmed-comment :
    (cfg : Config) (c : ℕ) (s : Bytes)
    → (c == b'#' || c == b';' || c == b'[') ≡ true
    → parse_trimmed cfg (c ∷ s) ≡ cfg
unfolding parse_trimmed
parse_trimmed-comment cfg c s h = rw h

-- A comment, or a section header, changes nothing, with any whitespace before it.
pub parse_one-comment :
    (cfg : Config) (sp : Bytes) (c : ℕ) (s : Bytes)
    → IsSpaces sp
    → (c == b'#' || c == b';' || c == b'[') ≡ true
    → parse_one cfg (sp ++ c ∷ s) ≡ cfg
unfolding parse_one
parse_one-comment cfg sp c s h k =
    let solid : is_space c ≡ false = ground arith in
    rw (skip_space-append sp (c ∷ s) h ∙ skip_space-solid c s solid)
      (parse_trimmed-comment cfg c s k)

-- In a last line with no newline the 512th byte of a comment begins a line of its own: what
-- stands there is taken as a setting.
pub config_parse_buffer-long_comment :
    (cfg : Config) (c : ℕ) (s rest : Bytes)
    → (c == b'#' || c == b';' || c == b'[') ≡ true
    → length (c ∷ s) ≡ 511
    → Without b'\n' (c ∷ (s ++ rest))
    → config_parse_buffer cfg (c ∷ (s ++ rest)) ≡ config_parse_buffer cfg rest
config_parse_buffer-long_comment cfg c s rest k size h =
    let all = length-append (c ∷ s) rest in
    let cut : min (length (c ∷ (s ++ rest))) 511 ≡ 511 = omega arith in
    config_parse_buffer-last cfg c (s ++ rest) h
    ∙ ap₂ config_parse_buffer
        (ap (parse_one cfg) (take-append 511 (c ∷ s) rest size) ∙ parse_one-comment cfg [] c s tt k)
        (ap (λ n. drop n (c ∷ (s ++ rest))) cut ∙ drop-append 511 (c ∷ s) rest size)
