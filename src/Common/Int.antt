-- ===== src/Common/Int.antt =====
-- Go's int where the program only compares it: identifiers. `negsuc n` is -(n + 1).
use Prim.Native.Nat.{ℕ}
use mathlib.Core.Path.{◌≡◌, refl, ap}
use mathlib.Core.Bool.{Bool, true, false}
use mathlib.Core.List.{List, Memᴰ}
use collomia.Common.Tests.{◌==◌, ==_iff}
use collomia.Common.Lists.{any, any→Mem, Mem→any}

pub data ℤ : Type 0 where
  pos : ℕ → ℤ
  negsuc : ℕ → ℤ

unfoldable pub int_eq : ℤ → ℤ → Bool
int_eq (pos m) (pos n) = m == n
int_eq (negsuc m) (negsuc n) = m == n
int_eq _ _ = false

-- A Go map from integers to Booleans is the list of the integers that are true.
unfoldable pub has_int : List ℤ → ℤ → Bool
has_int xs x = any (int_eq x) xs

pub int_eq→eq : (x y : ℤ) → int_eq x y ≡ true → x ≡ y
unfolding int_eq
int_eq→eq (pos m) (pos n) h = ap pos ((==_iff m n).0 h)
int_eq→eq (pos m) (negsuc n) h = cc
int_eq→eq (negsuc m) (pos n) h = cc
int_eq→eq (negsuc m) (negsuc n) h = ap negsuc ((==_iff m n).0 h)

pub int_eq_refl : (x : ℤ) → int_eq x x ≡ true
unfolding int_eq
int_eq_refl (pos m) = (==_iff m m).1 refl
int_eq_refl (negsuc m) = (==_iff m m).1 refl

pub has_int→Mem : (xs : List ℤ) (x : ℤ) → has_int xs x ≡ true → Memᴰ x xs
unfolding has_int
has_int→Mem xs x h = let (y, m, e) = any→Mem (int_eq x) xs h in rw (int_eq→eq x y e) m

pub Mem→has_int : {xs : List ℤ} {x : ℤ} → Memᴰ x xs → has_int xs x ≡ true
unfolding has_int
Mem→has_int {xs} {x} m = Mem→any (int_eq x) m (int_eq_refl x)
