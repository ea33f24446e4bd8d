-- ===== src/Util/Path/Segments.antt =====
-- `path_segment` returns the segment that its index names.
use qemu_snapshot_web_manage.Prelude.{
  ℕ, zero, suc, ◌+◌, ◌≤◌, ◌<◌, ◌≡◌, ◌≢◌, refl, ◌∙◌, inl, inr, some, List, [], ◌∷◌, ◌++◌, arith,
  length, length-append, get_elem?, All, Bytes, ◌==◌, if◌then◌else◌, Bool-cases, before, strchr,
}
use qemu_snapshot_web_manage.Prelude.Int.{pos}
use qemu_snapshot_web_manage.Util.Path.{
  past_slash, nonempty, segment_loop, skip_leading_slash, path_segment,
}

abbrev pub SlashFree : Bytes → Type 0
SlashFree s = All (λ c. c ≢ b'/') s

-- A segment of a path: some bytes, none of them a slash.
abbrev pub IsSegment : Bytes → Type 0
IsSegment s = (s ≢ []) × SlashFree s

-- The path of these segments, each behind a slash.
abbrev pub join : List Bytes → Bytes
join [] = []
join (s ∷ segs) = b'/' ∷ (s ++ join segs)

-- The path without its leading slash.
abbrev body : List Bytes → Bytes
body [] = []
body (s ∷ segs) = s ++ join segs

before-slash : (s : Bytes) (segs : List Bytes) → SlashFree s → before b'/' (s ++ join segs) ≡ s
unfolding before
before-slash [] [] h = refl
before-slash [] (t ∷ segs) h = refl
before-slash (c ∷ s) segs h = ground (arith, before-slash s segs h.1)

past_slash-join :
    (s : Bytes) (segs : List Bytes)
    → SlashFree s
    → past_slash (strchr (s ++ join segs) b'/') ≡ body segs
unfolding past_slash strchr
past_slash-join [] [] h = refl
past_slash-join [] (t ∷ segs) h = refl
past_slash-join (c ∷ s) segs h = ground (arith, past_slash-join s segs h.1)

nonempty_self : (s : Bytes) → s ≢ [] → nonempty s ≡ some s
unfolding nonempty
nonempty_self [] h = absurd (h refl)
nonempty_self (c ∷ s) h = refl

-- One round of the loop on a path that begins with the segment `s`.
segment_loop-round :
    (fuel seg index : ℕ) (s : Bytes) (segs : List Bytes)
    → IsSegment s
    → segment_loop (suc fuel) (body (s ∷ segs)) seg index
      ≡ (if seg == index then some s else segment_loop fuel (body segs) (seg + 1) index)
unfolding segment_loop
segment_loop-round fuel seg index [] segs h = absurd (h.0 refl)
segment_loop-round fuel seg index (c ∷ s) segs h =
    rw (before-slash (c ∷ s) segs h.1, past_slash-join (c ∷ s) segs h.1, nonempty_self (c ∷ s) h.0)

segment_loop-body :
    (segs : List Bytes) (fuel seg i index : ℕ)
    → All IsSegment segs
    → length segs < suc fuel
    → seg + i ≡ index
    → segment_loop fuel (body segs) seg index ≡ get_elem? segs i
segment_loop-body [] zero seg i index h f e = unfold segment_loop in refl
segment_loop-body [] (suc fuel) seg i index h f e = unfold segment_loop in refl
segment_loop-body (s ∷ segs) zero seg i index h f e = absurd (omega arith)
segment_loop-body (s ∷ segs) (suc fuel) seg zero index h f e =
    segment_loop-round fuel seg index s segs h.0 ∙ ground arith
segment_loop-body (s ∷ segs) (suc fuel) seg (suc i) index h f e =
    segment_loop-round fuel seg index s segs h.0
    ∙ ground (arith, segment_loop-body segs fuel (seg + 1) i index h.1)

length-body-le : (segs : List Bytes) → All IsSegment segs → length segs ≤ length (join segs)
length-body-le [] h = omega arith
length-body-le (s ∷ segs) h = omega (arith, length-body-le segs h.1, length-append s (join segs))

skip_leading_slash-join : (segs : List Bytes) → skip_leading_slash (join segs) ≡ body segs
unfolding skip_leading_slash
skip_leading_slash-join [] = refl
skip_leading_slash-join (s ∷ segs) = refl

-- On a path of well-formed segments the index selects one of them, and past the last there is none.
pub path_segment-join :
    (segs : List Bytes) (i : ℕ)
    → All IsSegment segs
    → path_segment (some (join segs)) (pos i) ≡ get_elem? segs i
unfolding path_segment
path_segment-join segs i h = rw skip_leading_slash-join (
    segment_loop-body segs (suc (length (join segs))) 0 i i h (omega (arith, length-body-le segs h))
      (omega arith))

before-SlashFree : (s : Bytes) → SlashFree (before b'/' s)
unfolding before
before-SlashFree [] = tt
before-SlashFree (c ∷ s) = ground (arith, before-SlashFree s)

nonempty-IsSegment : (s t : Bytes) → SlashFree s → nonempty s ≡ some t → IsSegment t
unfolding nonempty
nonempty-IsSegment [] t h e = cc
nonempty-IsSegment (c ∷ s) t h e = ground arith

segment_loop-IsSegment :
    (fuel : ℕ) (p : Bytes) (seg index : ℕ) (t : Bytes)
    → segment_loop fuel p seg index ≡ some t
    → IsSegment t
unfolding segment_loop
segment_loop-IsSegment zero p seg index t e = cc
segment_loop-IsSegment (suc fuel) [] seg index t e = cc
segment_loop-IsSegment (suc fuel) (c ∷ p) seg index t e = elim (Bool-cases (seg == index)) [
  | inl here ↦ nonempty-IsSegment _ t (before-SlashFree (c ∷ p)) (rw here at e)
  | inr later ↦ segment_loop-IsSegment fuel _ (seg + 1) index t (rw later at e)
]

-- Whatever the URL is, a segment taken from it is not empty and holds no slash.
pub path_segment-IsSegment :
    (url t : Bytes) (i : ℕ) → path_segment (some url) (pos i) ≡ some t → IsSegment t
unfolding path_segment
path_segment-IsSegment url t i =
    segment_loop-IsSegment (suc (length url)) (skip_leading_slash url) 0 i t
