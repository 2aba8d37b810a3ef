-- ===== src/Common/Lists.antt =====
-- Lists measured by native numbers, the Boolean quantifiers that loops with early returns compute,
-- and the predicates that they decide.
use Prim.Native.Nat.{ℕ, suc, ◌+◌, ◌≤◌, ◌<◌}
use mathlib.Core.Path.{◌≡◌, refl, sym, ap, subst, ◌∙◌}
use mathlib.Core.Logic.{◌≢◌, ◌⊎◌, inl, inr}
use mathlib.Core.Bool.{Bool, true, false, ◌&&◌, ◌||◌}
use mathlib.Core.List.{List, [], ◌∷◌, ◌++◌, Memᴰ}
use native.Mathlib.Omega.{arith}
use collomia.Common.Tests.{if◌then◌else◌, Bool-cases}

module _ {ℓ} {A : Type ℓ} where
  abbrev pub length : List A → ℕ
  length [] = 0
  length (x ∷ xs) = suc (length xs)

  -- `len(xs) == 0`
  abbrev pub is_empty : List A → Bool
  is_empty [] = true
  is_empty (x ∷ xs) = false

  abbrev pub all : (A → Bool) → List A → Bool
  all p [] = true
  all p (x ∷ xs) = p x && all p xs

  abbrev pub any : (A → Bool) → List A → Bool
  any p [] = false
  any p (x ∷ xs) = p x || any p xs

  -- The elements that pass a test, in order.
  abbrev pub keep : (A → Bool) → List A → List A
  keep p [] = []
  keep p (x ∷ xs) = let rest = keep p xs in if p x then x ∷ rest else rest

  abbrev pub count : (A → Bool) → List A → ℕ
  count p [] = 0
  count p (x ∷ xs) = let rest = count p xs in if p x then suc rest else rest

  pub length-append : (xs ys : List A) → length (xs ++ ys) ≡ length xs + length ys
  length-append [] ys = omega arith
  length-append (x ∷ xs) ys = omega (arith, length-append xs ys)

  pub List-cases : (xs : List A) → (xs ≡ []) ⊎ ((x : A) × (rest : List A) × (xs ≡ x ∷ rest))
  List-cases [] = inl refl
  List-cases (x ∷ xs) = inr (x, xs, refl)

module _ {ℓ κ} {A : Type ℓ} (P : A → Type κ) where
  -- Every element has the property.
  abbrev pub All : List A → Type κ
  All [] = Unit
  All (x ∷ xs) = P x × All xs

  pub All-append : (xs ys : List A) → All xs → All ys → All (xs ++ ys)
  All-append [] ys hx hy = hy
  All-append (x ∷ xs) ys hx hy = (hx.0, All-append xs ys hx.1 hy)

module _ {ℓ} {A : Type ℓ} (p : A → Bool) where
  pub any→Mem : (xs : List A) → any p xs ≡ true → (x : A) × Memᴰ x xs × (p x ≡ true)
  any→Mem [] h = cc
  any→Mem (x ∷ xs) h = elim (Bool-cases (p x)) [
    | inl e ↦ (x, Memᴰ.head refl, e)
    | inr e ↦ let (y, m, f) = any→Mem xs (ground arith) in (y, Memᴰ.tail m, f)
  ]

  pub Mem→any : {x : A} {xs : List A} → Memᴰ x xs → p x ≡ true → any p xs ≡ true
  Mem→any {x} (Memᴰ.head {x = y} e) h = rw (ap p (sym e) ∙ h)
  Mem→any (Memᴰ.tail {x = y} {xs = ys} m) h =
      let later : any p ys ≡ true = Mem→any m h in ground arith

module _ {ℓ κ} {A : Type ℓ} (P : A → Type κ) where
  pub All-Mem : {x : A} (xs : List A) → All P xs → Memᴰ x xs → P x
  All-Mem [] h m = elim m [ ]
  All-Mem (y ∷ ys) h (Memᴰ.head e) = subst P (sym e) h.0
  All-Mem (y ∷ ys) h (Memᴰ.tail m) = All-Mem ys h.1 m

  pub All_of_Mem : (xs : List A) → ((x : A) → Memᴰ x xs → P x) → All P xs
  All_of_Mem [] h = tt
  All_of_Mem (x ∷ xs) h = (h x (Memᴰ.head refl), All_of_Mem xs (λ y m. h y (Memᴰ.tail m)))

pub count-append {ℓ} :
    {A : Type ℓ} (p : A → Bool) (xs ys : List A) → count p (xs ++ ys) ≡ count p xs + count p ys
count-append p [] ys = omega arith
count-append p (x ∷ xs) ys = ground (arith, count-append p xs ys)

module _ {ℓ} {A : Type ℓ} (p q : A → Bool) (h : (x : A) → p x ≡ true → q x ≡ true) where
  pub count_mono : (xs : List A) → count p xs ≤ count q xs
  count_mono [] = omega arith
  count_mono (x ∷ xs) = ground (arith, count_mono xs, h x)

  -- A weaker test that one more element passes counts more.
  pub count-strict :
      {x : A} (xs : List A) → Memᴰ x xs → p x ≡ false → q x ≡ true → count p xs < count q xs
  count-strict [] m hp hq = elim m [ ]
  count-strict {x} (y ∷ ys) (Memᴰ.head e) hp hq =
      let off : p y ≡ false = rw (← e) hp in
      let on : q y ≡ true = rw (← e) hq in ground (arith, count_mono ys)
  count-strict (y ∷ ys) (Memᴰ.tail m) hp hq = ground (arith, count-strict ys m hp hq, h y)

pub count≤length {ℓ} : {A : Type ℓ} (p : A → Bool) (xs : List A) → count p xs ≤ length xs
count≤length p [] = omega arith
count≤length p (x ∷ xs) = ground (arith, count≤length p xs)

-- The values of a function at the elements are distinct.
abbrev pub Distinct {ℓ κ} : {A : Type ℓ} {B : Type κ} → (A → B) → List A → Type κ
Distinct f [] = Unit
Distinct f (x ∷ xs) = All (λ y. f y ≢ f x) xs × Distinct f xs
