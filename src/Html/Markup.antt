-- ===== src/Html/Markup.antt =====
-- The markup of the pages of src/html_render.c is that of the program.
pub mod Pages
use qemu_snapshot_web_manage.Prelude.{
  ℕ, zero, suc, ◌+◌, ◌%◌, ◌/◌, ◌<◌, ◌==◌, ltb, ◌≡◌, refl, sym, ap, ap₂, ◌∙◌, Bool, true, false,
  ◌||◌, Option, none, some, List, [], ◌∷◌, ◌++◌, map, append_assoc, append-nil, if◌then◌else◌,
  Bytes, All, Bool-cases, inl, inr, arith,
}
use qemu_snapshot_web_manage.Prelude.Int.{ℤ, pos, negsuc}
use qemu_snapshot_web_manage.Server.{digits, show_long}
use qemu_snapshot_web_manage.Util.Escape.{html_escape}
use qemu_snapshot_web_manage.Util.Escape.Html.{IsInert, html_escape-IsInert}
use qemu_snapshot_web_manage.Html.{Strbuf, sb_init, sb_appendf, sb_finish}
use qemu_snapshot_web_manage.Html.Template.{
  Part, raw, escaped, number, part_text, formatted, append_calls, built,
}

abbrev is_markup : ℕ → Bool
is_markup c = c == b'<' || c == b'>' || c == b'"' || c == b'\''

-- The angle brackets and quotes of a page, in order.
unfoldable pub markup : Bytes → Bytes
markup [] = []
markup (c ∷ s) = let rest = markup s in if is_markup c then c ∷ rest else rest

pub markup-append : (s t : Bytes) → markup (s ++ t) ≡ markup s ++ markup t
unfolding markup
markup-append [] t = refl
markup-append (c ∷ s) t = elim (Bool-cases (is_markup c)) [
  | inl hit ↦ rw (hit, markup-append s t) refl
  | inr miss ↦ rw (miss, markup-append s t) refl
]

inert-ne : (c : ℕ) → IsInert c → is_markup c ≡ false
inert-ne c h = ground (arith, h.0, h.1, h.2, h.3)

markup-inert : (s : Bytes) → All IsInert s → markup s ≡ []
unfolding markup
markup-inert [] h = refl
markup-inert (c ∷ s) h = rw (inert-ne c h.0, markup-inert s h.1) refl

pub markup-html_escape : (t : Option Bytes) → markup (html_escape t) ≡ []
unfolding html_escape markup
markup-html_escape none = refl
markup-html_escape (some s) = markup-inert (html_escape (some s)) (html_escape-IsInert s)

digit-ne : (d : ℕ) → d < 10 → is_markup (b'0' + d) ≡ false
digit-ne d h = ground arith

markup-digits : (fuel n : ℕ) → markup (digits fuel n) ≡ []
unfolding digits
markup-digits zero n = unfold markup in refl
markup-digits (suc fuel) n = elim (Bool-cases (ltb n 10)) [
  | inl small ↦ rw small (unfold markup in rw (digit-ne n (ground arith)) refl)
  | inr large ↦
      rw
        (
          large,
          markup-append (digits fuel (n / 10)) ((b'0' + n % 10) ∷ []),
          markup-digits fuel (n / 10),
        )
        (unfold markup in rw (digit-ne (n % 10) (omega arith)) refl)
]

markup-show_long : (n : ℤ) → markup (show_long n) ≡ []
unfolding show_long
markup-show_long (pos n) = markup-digits 19 n
markup-show_long (negsuc n) = unfold markup in markup-digits 19 (suc n)

-- A part without what the program is given.
abbrev pub blank : Part → Part
blank (raw s) = raw s
blank (escaped t) = escaped none
blank (number n) = number (pos 0)

abbrev pub blanks : List (List Part) → List (List Part)
blanks calls = map (map blank) calls

markup-part_text : (p : Part) → markup (part_text (blank p)) ≡ markup (part_text p)
markup-part_text (raw s) = refl
markup-part_text (escaped t) = markup-html_escape none ∙ sym (markup-html_escape t)
markup-part_text (number n) = markup-show_long (pos 0) ∙ sym (markup-show_long n)

markup-formatted : (ps : List Part) → markup (formatted (map blank ps)) ≡ markup (formatted ps)
unfolding formatted
markup-formatted [] = refl
markup-formatted (p ∷ ps) =
    markup-append (part_text (blank p)) (formatted (map blank ps))
    ∙ ap₂ ◌++◌ (markup-part_text p) (markup-formatted ps)
    ∙ sym (markup-append (part_text p) (formatted ps))

unfoldable pub page_text : List (List Part) → Bytes
page_text [] = []
page_text (call ∷ calls) = formatted call ++ page_text calls

markup-page_text :
    (calls : List (List Part)) → markup (page_text (blanks calls)) ≡ markup (page_text calls)
unfolding page_text
markup-page_text [] = refl
markup-page_text (call ∷ calls) =
    markup-append (formatted (map blank call)) (page_text (blanks calls))
    ∙ ap₂ ◌++◌ (markup-formatted call) (markup-page_text calls)
    ∙ sym (markup-append (formatted call) (page_text calls))

append_calls-buf :
    (sb : Strbuf) (s : Bytes) (calls : List (List Part))
    → sb.buf ≡ some s
    → (append_calls sb calls).buf ≡ some (s ++ page_text calls)
unfolding append_calls page_text
append_calls-buf sb s [] h = h ∙ ap some (sym (append-nil s))
append_calls-buf sb s (call ∷ calls) h =
    append_calls-buf (sb_appendf sb (formatted call)) (s ++ formatted call) calls
      (unfold sb_appendf in rw h refl)
    ∙ ap some (append_assoc s (formatted call) (page_text calls))

pub built-page_text : (n : ℕ) (calls : List (List Part)) → built n calls ≡ page_text calls
unfolding built sb_finish
built-page_text n calls = rw (append_calls-buf (sb_init n) [] calls (unfold sb_init in refl)) refl

-- Pages that differ in texts and numbers alone have the same markup.
pub built-markup :
    (n m : ℕ) (calls calls' : List (List Part))
    → blanks calls ≡ blanks calls'
    → markup (built n calls) ≡ markup (built m calls')
built-markup n m calls calls' h =
    ap markup (built-page_text n calls)
    ∙ sym (markup-page_text calls)
    ∙ ap (λ (c : List (List Part)). markup (page_text c)) h
    ∙ markup-page_text calls'
    ∙ ap markup (sym (built-page_text m calls'))
