-- ===== src/Routes/Form.antt =====
-- `form_value` of src/routes.c.
pub mod Fields
use qemu_snapshot_web_manage.Prelude.{
  ℕ, zero, suc, ◌-◌, Bool, false, not, ◌||◌, Option, none, some, [], ◌∷◌, ◌==◌, if◌then◌else◌,
  Bytes, length, take, drop, strstr, before,
}
use qemu_snapshot_web_manage.Util.Url.{url_decode}

-- The byte before the end of `skipped`, where `prev` is the byte before its start.
unfoldable pub last_byte : ℕ → Bytes → ℕ
last_byte prev [] = prev
last_byte prev (c ∷ skipped) = last_byte c skipped

-- `p[klen] == '='`
abbrev pub starts_with_equals : Bytes → Bool
starts_with_equals [] = false
starts_with_equals (c ∷ s) = c == b'='

-- `while ((p = strstr(p, key)) != NULL)`, with fuel for the rounds. The start of the body counts as
-- a place behind `&`: `prev` is `&` there. The result is the value, still encoded.
unfoldable pub form_loop : ℕ → ℕ → Bytes → Bytes → Option Bytes
form_loop zero prev p key = none
form_loop (suc fuel) prev p key = elim (strstr p key) [
  | none ↦ none
  | some q ↦
      let behind = drop (length key) q in
      let before_q = last_byte prev (take (length p - length q) p) in
      let rest = form_loop fuel (last_byte before_q key) behind key in
      if not (before_q == b'&')
      then rest
      else if not (starts_with_equals behind)
      then rest
      else some (before b'&' (drop 1 behind))
]

abbrev pub decoded : Option Bytes → Option Bytes
decoded none = none
decoded (some raw) = url_decode (some raw)

-- Each round takes the key, which no caller leaves empty.
unfoldable pub form_value : Option Bytes → Bytes → Option Bytes
form_value none key = none
form_value (some body) key = decoded (form_loop (suc (length body)) b'&' body key)
