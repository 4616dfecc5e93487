-- ===== src/Prelude/Chars.antt =====
-- Text as a list of UTF-16 code units (the units that the program's regular expressions and its
-- `length` see), with equality and the classes of characters that the program's patterns name.
use Prim.Native.Char.{code}
use Prim.Native.Nat.{ℕ, ◌+◌}
use Prim.Native.String.{String}
use mathlib.Core.Path.{◌≡◌, refl, sym, ◌∙◌}
use mathlib.Core.Logic.{◌↔◌, ◌≢◌}
use mathlib.Core.Bool.{Bool, true, false, false≢true, ◌&&◌, ◌||◌}
use mathlib.Core.List.{List, [], ◌∷◌, reverse}
use native.Mathlib.Omega.{arith}
use ppq_enclave_proxy.Prelude.Tests.{◌==◌, leb, if◌then◌else◌}

abbrev pub Text : Type 0
Text = List ℕ

-- The units of a literal of the program (its literals are ASCII).
abbrev pub codes : String → Text
codes String.[] = []
codes (String.◌∷◌ c s) = code c ∷ codes s

abbrev pub eq_text : Text → Text → Bool
eq_text [] [] = true
eq_text [] (_ ∷ _) = false
eq_text (_ ∷ _) [] = false
eq_text (x ∷ xs) (y ∷ ys) = x == y && eq_text xs ys

pub eq_text_iff : (s t : Text) → (eq_text s t ≡ true) ↔ (s ≡ t)
eq_text_iff [] [] = ground arith
eq_text_iff [] (y ∷ ys) = ground arith
eq_text_iff (x ∷ xs) [] = ground arith
eq_text_iff (x ∷ xs) (y ∷ ys) = ground (arith, eq_text_iff xs ys)

pub eq_text_refl : (s : Text) → eq_text s s ≡ true
eq_text_refl s = (eq_text_iff s s).1 refl

pub ne_of_eq_text : (s t : Text) → eq_text s t ≡ false → s ≢ t
ne_of_eq_text s t h e = false≢true (sym h ∙ (eq_text_iff s t).1 e)

abbrev pub starts_with : Text → Text → Bool
starts_with s [] = true
starts_with [] (_ ∷ _) = false
starts_with (x ∷ xs) (y ∷ ys) = x == y && starts_with xs ys

-- `includes`
unfoldable pub contains : Text → Text → Bool
contains [] t = starts_with [] t
contains (c ∷ s) t = starts_with (c ∷ s) t || contains s t

abbrev pub is_digit : ℕ → Bool
is_digit c = leb b'0' c && leb c b'9'

abbrev pub is_lower : ℕ → Bool
is_lower c = leb b'a' c && leb c b'z'

abbrev pub is_upper : ℕ → Bool
is_upper c = leb b'A' c && leb c b'Z'

-- `toLowerCase`, exact for the units whose lower case is ASCII (the Kelvin sign is one); the program
-- compares the result with ASCII text only. (The dotted capital I becomes an `i` and a mark, which
-- no compared text has; it is left as it is.)
abbrev pub to_lower : ℕ → ℕ
to_lower c = if is_upper c then c + 32 else if c == 0x212a then b'k' else c

-- The units that `\s` and `trim` take for white space.
abbrev pub is_space : ℕ → Bool
is_space c =
    (leb 9 c && leb c 13)
    || c == 32
    || c == 160
    || c == 0x1680
    || (leb 0x2000 c && leb c 0x200a)
    || c == 0x2028
    || c == 0x2029
    || c == 0x202f
    || c == 0x205f
    || c == 0x3000
    || c == 0xfeff

-- The units that `.` does not match.
abbrev pub is_line_end : ℕ → Bool
is_line_end c = c == 10 || c == 13 || c == 0x2028 || c == 0x2029

abbrev pub trim_start : Text → Text
trim_start [] = []
trim_start (c ∷ s) = if is_space c then trim_start s else c ∷ s

unfoldable pub trim : Text → Text
trim s = reverse (trim_start (reverse (trim_start s)))

module _ {ℓ} {A : Type ℓ} where
  -- `every` and `some` of an array.
  abbrev pub every : (A → Bool) → List A → Bool
  every p [] = true
  every p (x ∷ xs) = p x && every p xs

  abbrev pub any_of : (A → Bool) → List A → Bool
  any_of p [] = false
  any_of p (x ∷ xs) = p x || any_of p xs
