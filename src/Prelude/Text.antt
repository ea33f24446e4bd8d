-- ===== src/Prelude/Text.antt =====
-- C strings as lists of bytes without the final NUL, and what the source uses of <string.h>.
use Prim.Native.Nat.{ℕ, ◌-◌, ◌<◌, ◌≤◌}
use Prim.Native.Char.{code}
use Prim.Native.String.{String}
use mathlib.Core.Path.{◌≡◌, refl}
use mathlib.Core.Logic.{◌↔◌, ◌≢◌}
use mathlib.Core.Bool.{Bool, true, false, ◌&&◌}
use mathlib.Core.List.{List, [], ◌∷◌, ◌++◌}
use mathlib.Core.Option.{Option, none, some}
use native.Mathlib.Omega.{arith}
use qemu_snapshot_web_manage.Prelude.Tests.{◌==◌, if◌then◌else◌}
use qemu_snapshot_web_manage.Prelude.Lists.{take, length, All}

abbrev pub Bytes : Type 0
Bytes = List ℕ

-- The bytes of an ASCII literal.
abbrev pub codes : String → Bytes
codes String.[] = []
codes (String.◌∷◌ c s) = code c ∷ codes s

-- `strcmp(a, b) == 0`
unfoldable pub strcmp_eq : Bytes → Bytes → Bool
strcmp_eq [] [] = true
strcmp_eq (x ∷ xs) (y ∷ ys) = x == y && strcmp_eq xs ys
strcmp_eq _ _ = false

pub strcmp_eq_iff : (a b : Bytes) → (strcmp_eq a b ≡ true) ↔ (a ≡ b)
unfolding strcmp_eq
strcmp_eq_iff (x ∷ a) (y ∷ b) = ground (arith, strcmp_eq_iff a b)
strcmp_eq_iff _ _ = ground arith

pub strcmp_eq_self : (a : Bytes) → strcmp_eq a a ≡ true
strcmp_eq_self a = (strcmp_eq_iff a a).1 refl

-- `strncmp(s, p, strlen(p)) == 0`
unfoldable pub is_prefix : Bytes → Bytes → Bool
is_prefix s [] = true
is_prefix [] (y ∷ ys) = false
is_prefix (x ∷ xs) (y ∷ ys) = x == y && is_prefix xs ys

-- The suffix at which `strstr(hay, needle)` points.
unfoldable pub strstr : Bytes → Bytes → Option Bytes
unfolding is_prefix
strstr [] needle = if is_prefix [] needle then some [] else none
strstr (c ∷ hay) needle = if is_prefix (c ∷ hay) needle then some (c ∷ hay) else strstr hay needle

-- The bytes before the first `c`, and the suffix at which `strchr(s, c)` points.
unfoldable pub before : ℕ → Bytes → Bytes
before c [] = []
before c (x ∷ xs) = if x == c then [] else x ∷ before c xs

unfoldable pub strchr : Bytes → ℕ → Option Bytes
strchr [] c = none
strchr (x ∷ xs) c = if x == c then some (x ∷ xs) else strchr xs c

-- What `snprintf(dst, size, "%s", s)` leaves in `dst`: at most `size - 1` bytes.
abbrev pub snprintf_s : ℕ → Bytes → Bytes
snprintf_s size s = take (size - 1) s

-- A byte of a C string.
abbrev pub IsByte : ℕ → Type 0
IsByte c = (0 < c) × (c < 256)

-- A text without the byte `c`.
abbrev pub Without : ℕ → Bytes → Type 0
Without c s = All (λ x. x ≢ c) s

module _ (c : ℕ) where
  pub before-append : (s r : Bytes) → Without c s → before c (s ++ c ∷ r) ≡ s
  unfolding before
  before-append [] r h = ground arith
  before-append (x ∷ s) r h = ground (arith, before-append s r h.1)

  pub strchr-append : (s r : Bytes) → Without c s → strchr (s ++ c ∷ r) c ≡ some (c ∷ r)
  unfolding strchr
  strchr-append [] r h = ground arith
  strchr-append (x ∷ s) r h = ground (arith, strchr-append s r h.1)

  pub before_self : (s : Bytes) → Without c s → before c s ≡ s
  unfolding before
  before_self [] h = refl
  before_self (x ∷ s) h = ground (arith, before_self s h.1)

  pub strchr-none : (s : Bytes) → Without c s → strchr s c ≡ none
  unfolding strchr
  strchr-none [] h = refl
  strchr-none (x ∷ s) h = ground (arith, strchr-none s h.1)

  -- What stands behind the place that `strchr` finds is shorter than the text.
  pub length-strchr-le : (s r : Bytes) → strchr s c ≡ some r → length r ≤ length s
  unfolding strchr
  length-strchr-le [] r e = cc
  length-strchr-le (x ∷ s) r e = ground (arith, length-strchr-le s r)

pub is_prefix-append : (s r : Bytes) → is_prefix (s ++ r) s ≡ true
unfolding is_prefix
is_prefix-append [] [] = refl
is_prefix-append [] (x ∷ r) = refl
is_prefix-append (x ∷ s) r = ground (arith, is_prefix-append s r)

-- A text that holds the needle is searched with success.
pub strstr-ne-none : (a needle b : Bytes) → strstr (a ++ (needle ++ b)) needle ≢ none
unfolding strstr
strstr-ne-none [] [] [] = ground arith
strstr-ne-none [] [] (x ∷ b) = ground arith
strstr-ne-none [] (x ∷ needle) b = ground (arith, is_prefix-append needle b)
strstr-ne-none (x ∷ a) needle b = ground (arith, strstr-ne-none a needle b)

-- Bytes that differ from the first byte of the needle are passed over.
pub strstr-skip :
    (c : ℕ) (needle s r : Bytes)
    → Without c s
    → strstr (s ++ r) (c ∷ needle) ≡ strstr r (c ∷ needle)
unfolding strstr
strstr-skip c needle [] r h = refl
strstr-skip c needle (x ∷ s) r h = ground (arith, strstr-skip c needle s r h.1)
