-- ===== src/CStr.antt =====
-- C strings: the bytes before the terminating 0 (string.h and ctype.h).
use Prim.Native.Char.{code}
use Prim.Native.String.{String}
use powerman.Base.{
  ℕ, ◌≡◌, refl, ◌↔◌, Bool, true, false, ◌&&◌, ◌||◌, List, [], ◌∷◌, arith, leb, ◌==◌,
}

abbrev pub CStr : Type 0
CStr = List ℕ

abbrev pub codes : String → CStr
codes String.[] = []
codes (String.◌∷◌ c s) = code c ∷ codes s

-- strcmp(a, b) == 0
unfoldable pub str_eq : CStr → CStr → Bool
str_eq [] [] = true
str_eq [] (y ∷ ys) = false
str_eq (x ∷ xs) [] = false
str_eq (x ∷ xs) (y ∷ ys) = x == y && str_eq xs ys

pub str_eq_of : (a b : CStr) → str_eq a b ≡ true → a ≡ b
unfolding str_eq
str_eq_of [] [] h = refl
str_eq_of [] (y ∷ ys) h = absurd (ground arith)
str_eq_of (x ∷ xs) [] h = absurd (ground arith)
str_eq_of (x ∷ xs) (y ∷ ys) h = ground (arith, str_eq_of xs ys)

pub str_eq_self : (a : CStr) → str_eq a a ≡ true
unfolding str_eq
str_eq_self [] = refl
str_eq_self (x ∷ xs) = ground (arith, str_eq_self xs)

pub str_eq_iff : (a b : CStr) → (str_eq a b ≡ true) ↔ (a ≡ b)
str_eq_iff a b = (str_eq_of a b, λ e. ground (arith, e, str_eq_self a))

-- Whether a name stands in a list of names.
unfoldable pub contains : CStr → List CStr → Bool
contains s [] = false
contains s (t ∷ ts) = str_eq t s || contains s ts

-- isspace() in the C locale: space, \t \n \v \f \r.
unfoldable pub isspace : ℕ → Bool
isspace c = c == 32 || (leb 9 c && leb c 13)

-- strchr(s, c) != NULL for a byte c that is not 0.
unfoldable pub strchr : CStr → ℕ → Bool
strchr [] c = false
strchr (x ∷ xs) c = x == c || strchr xs c
