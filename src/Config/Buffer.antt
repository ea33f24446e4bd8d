-- ===== src/Config/Buffer.antt =====
-- `config_parse_buffer` takes a file line by line.
use qemu_snapshot_web_manage.Prelude.{
  ℕ, zero, suc, ◌≤◌, ◌<◌, ◌≡◌, refl, ap, ap₂, ◌∙◌, Option, none, some, List, [], ◌∷◌, ◌++◌, arith,
  length, take, drop, take-all, All, Bytes, Without, before, strchr, before-append, strchr-append,
  before_self, strchr-none, length-strchr-le, min, length-drop,
}
use mathlib.Core.List.{foldl}
use qemu_snapshot_web_manage.Config.{Config, parse_one, next_line, parse_loop, config_parse_buffer}

next_line-shorter :
    (c : ℕ) (p : Bytes) (r : Option Bytes)
    → strchr (c ∷ p) b'\n' ≡ r
    → length (next_line (c ∷ p) r) ≤ length p
unfolding next_line
next_line-shorter c p none e = omega (arith, length-drop (min (length (c ∷ p)) 511) (c ∷ p))
next_line-shorter c p (some []) e = omega arith
next_line-shorter c p (some (nl ∷ rest)) e =
    omega (arith, length-strchr-le b'\n' (c ∷ p) (nl ∷ rest) e)

abbrev following : ℕ → Bytes → Bytes
following c p = next_line (c ∷ p) (strchr (c ∷ p) b'\n')

abbrev line_of : ℕ → Bytes → Bytes
line_of c p = take 511 (before b'\n' (c ∷ p))

-- More rounds than the text has bytes make no difference.
parse_loop-fuel :
    (f g : ℕ) (cfg : Config) (p : Bytes)
    → length p < f
    → length p < g
    → parse_loop f cfg p ≡ parse_loop g cfg p
unfolding parse_loop
parse_loop-fuel zero g cfg p h k = absurd (omega arith)
parse_loop-fuel (suc f) zero cfg p h k = absurd (omega arith)
parse_loop-fuel (suc f) (suc g) cfg [] h k = refl
parse_loop-fuel (suc f) (suc g) cfg (c ∷ p) h k =
    let shorter = next_line-shorter c p (strchr (c ∷ p) b'\n') refl in
    parse_loop-fuel f g (parse_one cfg (line_of c p)) (following c p) (omega (arith, shorter))
      (omega (arith, shorter))

parse_loop-step :
    (f : ℕ) (cfg : Config) (c : ℕ) (p : Bytes)
    → parse_loop (suc f) cfg (c ∷ p) ≡ parse_loop f (parse_one cfg (line_of c p)) (following c p)
unfolding parse_loop
parse_loop-step f cfg c p = refl

-- One round of the loop.
config_parse_buffer-round :
    (cfg : Config) (c : ℕ) (p : Bytes)
    → config_parse_buffer cfg (c ∷ p)
      ≡ config_parse_buffer (parse_one cfg (line_of c p)) (following c p)
unfolding config_parse_buffer
config_parse_buffer-round cfg c p =
    let shorter = next_line-shorter c p (strchr (c ∷ p) b'\n') refl in
    parse_loop-step (length (c ∷ p)) cfg c p
    ∙ parse_loop-fuel (length (c ∷ p)) (suc (length (following c p))) _ (following c p)
        (omega (arith, shorter)) (omega arith)

config_parse_buffer-nil : (cfg : Config) → config_parse_buffer cfg [] ≡ cfg
unfolding config_parse_buffer parse_loop
config_parse_buffer-nil cfg = refl

next_line-newline :
    (line rest : Bytes) (p : Bytes)
    → Without b'\n' line
    → p ≡ line ++ b'\n' ∷ rest
    → next_line p (strchr p b'\n') ≡ rest
unfolding next_line
next_line-newline line rest p h e = rw (e, strchr-append b'\n' line rest h) refl

-- A line that ends in a newline is parsed, cut to 511 bytes, and then the rest of the buffer.
pub config_parse_buffer-line :
    (cfg : Config) (line rest : Bytes)
    → Without b'\n' line
    → config_parse_buffer cfg (line ++ b'\n' ∷ rest)
      ≡ config_parse_buffer (parse_one cfg (take 511 line)) rest
config_parse_buffer-line cfg [] rest h =
    config_parse_buffer-round cfg b'\n' rest
    ∙ ap₂ (λ l r. config_parse_buffer (parse_one cfg (take 511 l)) r)
        (before-append b'\n' [] rest tt) (next_line-newline [] rest _ tt refl)
config_parse_buffer-line cfg (c ∷ line) rest h =
    config_parse_buffer-round cfg c (line ++ b'\n' ∷ rest)
    ∙ ap₂ (λ l r. config_parse_buffer (parse_one cfg (take 511 l)) r)
        (before-append b'\n' (c ∷ line) rest h) (next_line-newline (c ∷ line) rest _ h refl)

next_line-last :
    (p : Bytes) → Without b'\n' p → next_line p (strchr p b'\n') ≡ drop (min (length p) 511) p
unfolding next_line
next_line-last p h = rw (strchr-none b'\n' p h) refl

-- A last line with no newline is parsed in pieces of 511 bytes, each as a line of its own.
pub config_parse_buffer-last :
    (cfg : Config) (c : ℕ) (line : Bytes)
    → Without b'\n' (c ∷ line)
    → config_parse_buffer cfg (c ∷ line)
      ≡ config_parse_buffer
          (parse_one cfg (take 511 (c ∷ line)))
          (drop (min (length (c ∷ line)) 511) (c ∷ line))
config_parse_buffer-last cfg c line h =
    config_parse_buffer-round cfg c line
    ∙ ap₂ (λ l r. config_parse_buffer (parse_one cfg (take 511 l)) r)
        (before_self b'\n' (c ∷ line) h) (next_line-last (c ∷ line) h)

abbrev pub IsLine : Bytes → Type 0
IsLine s = Without b'\n' s × (length s ≤ 511)

-- The file of these lines, each ended by a newline.
abbrev pub unlines : List Bytes → Bytes
unlines [] = []
unlines (l ∷ ls) = l ++ b'\n' ∷ unlines ls

-- A file of lines of at most 511 bytes is the sequence of its lines: each is parsed once, in order,
-- and none runs into another.
pub config_parse_buffer-unlines :
    (cfg : Config) (ls : List Bytes)
    → All IsLine ls
    → config_parse_buffer cfg (unlines ls) ≡ foldl parse_one cfg ls
config_parse_buffer-unlines cfg [] h = config_parse_buffer-nil cfg
config_parse_buffer-unlines cfg (l ∷ ls) h =
    config_parse_buffer-line cfg l (unlines ls) h.0.0
    ∙ ap (λ t. config_parse_buffer (parse_one cfg t) (unlines ls)) (take-all 511 l h.0.1)
    ∙ config_parse_buffer-unlines (parse_one cfg l) ls h.1
