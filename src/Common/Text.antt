-- ===== src/Common/Text.antt =====
-- Text as its code points, with the functions of Go's package `strings` that the program calls.
use Prim.Native.Nat.{ℕ, ◌+◌}
use Prim.Native.Char.{code}
use Prim.Native.String.{String}
use mathlib.Core.Bool.{Bool, true, false, ◌&&◌, ◌||◌}
use mathlib.Core.Path.{◌≡◌, refl}
use mathlib.Core.List.{List, [], ◌∷◌, ◌++◌, reverse}
use native.Mathlib.Omega.{arith}
use collomia.Common.Tests.{ltb, leb, ◌==◌, if◌then◌else◌}
use collomia.Common.Lists.{any}

-- A text as its code points.
abbrev pub Codes : Type 0
Codes = List ℕ

abbrev pub codes : String → Codes
codes String.[] = []
codes (String.◌∷◌ c s) = code c ∷ codes s

-- unicode.IsSpace
abbrev pub is_space : ℕ → Bool
is_space c =
    leb 9 c && leb c 13
    || c == 32
    || c == 0x85
    || c == 0xa0
    || c == 0x1680
    || leb 0x2000 c && leb c 0x200a
    || c == 0x2028
    || c == 0x2029
    || c == 0x202f
    || c == 0x205f
    || c == 0x3000

trim_left : Codes → Codes
trim_left [] = []
trim_left (c ∷ s) = let rest = trim_left s in if is_space c then rest else c ∷ s

-- strings.TrimSpace
unfoldable pub trim_space : Codes → Codes
unfolding trim_left
trim_space s = reverse (trim_left (reverse (trim_left s)))

-- `==` on texts
unfoldable pub text_eq : Codes → Codes → Bool
text_eq [] [] = true
text_eq (a ∷ s) (b ∷ t) = a == b && text_eq s t
text_eq _ _ = false

-- strings.HasPrefix
unfoldable pub has_prefix : Codes → Codes → Bool
has_prefix s [] = true
has_prefix [] (b ∷ t) = false
has_prefix (a ∷ s) (b ∷ t) = a == b && has_prefix s t

-- strings.HasSuffix for one character
unfoldable pub ends_with : Codes → ℕ → Bool
ends_with [] c = false
ends_with (a ∷ []) c = a == c
ends_with (a ∷ b ∷ s) c = ends_with (b ∷ s) c

-- strings.ContainsAny
abbrev pub contains_any : Codes → Codes → Bool
contains_any s set = any (λ c. any (λ d. c == d) set) s

-- The bytes of a code point in UTF-8, and `len` of a text.
abbrev pub rune_len : ℕ → ℕ
rune_len c = if ltb c 0x80 then 1 else if ltb c 0x800 then 2 else if ltb c 0x10000 then 3 else 4

unfoldable pub byte_len : Codes → ℕ
byte_len [] = 0
byte_len (c ∷ s) = rune_len c + byte_len s

pub text_eq→eq : (s t : Codes) → text_eq s t ≡ true → s ≡ t
unfolding text_eq
text_eq→eq [] [] h = refl
text_eq→eq [] (b ∷ t) h = cc
text_eq→eq (a ∷ s) [] h = cc
text_eq→eq (a ∷ s) (b ∷ t) h = ground (arith, text_eq→eq s t)

pub text_eq_refl : (s : Codes) → text_eq s s ≡ true
unfolding text_eq
text_eq_refl [] = refl
text_eq_refl (a ∷ s) = ground (arith, text_eq_refl s)

pub eq→text_eq : (s t : Codes) → s ≡ t → text_eq s t ≡ true
eq→text_eq s t e = rw (← e) (text_eq_refl s)

pub text_eq_sym : (s t : Codes) → text_eq s t ≡ text_eq t s
unfolding text_eq
text_eq_sym [] [] = refl
text_eq_sym [] (b ∷ t) = refl
text_eq_sym (a ∷ s) [] = refl
text_eq_sym (a ∷ s) (b ∷ t) = ground (arith, text_eq_sym s t)

-- A prefix is what a text begins with.
pub has_prefix-append : (s t : Codes) → has_prefix (s ++ t) s ≡ true
unfolding has_prefix
has_prefix-append [] t = refl
has_prefix-append (a ∷ s) t = ground (arith, has_prefix-append s t)

pub has_prefix_trans :
    (r s t : Codes) → has_prefix r s ≡ true → has_prefix s t ≡ true → has_prefix r t ≡ true
unfolding has_prefix
has_prefix_trans r s [] h k = refl
has_prefix_trans r [] (c ∷ t) h k = cc
has_prefix_trans [] (b ∷ s) (c ∷ t) h k = cc
has_prefix_trans (a ∷ r) (b ∷ s) (c ∷ t) h k = ground (arith, has_prefix_trans r s t)
