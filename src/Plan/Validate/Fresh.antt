-- ===== src/Plan/Validate/Fresh.antt =====
-- The maps of values already seen that the loops of Validate of internal/plan/plan.go keep.
use collomia.Common.{
  List, [], ◌∷◌, Bool, true, false, not, ◌&&◌, any, ◌≡◌, ◌≢◌, ◌↔◌, inl, inr, refl, arith, All,
  Bool-cases,
}
use collomia.Common.Text.{Codes, text_eq, text_eq→eq, text_eq_refl}
use collomia.Common.Int.{ℤ, int_eq, has_int, int_eq→eq, int_eq_refl}

pub int_eq-false : (x y : ℤ) → (int_eq x y ≡ false) ↔ (x ≢ y)
int_eq-false x y = (
  λ h e. let k : int_eq x y ≡ true = rw e (int_eq_refl y) in cc,
  λ n. elim (Bool-cases (int_eq x y)) [ inl e ↦ absurd (n (int_eq→eq x y e)) | inr e ↦ e ],
)

pub not-false : {b : Bool} → not b ≡ false → b ≡ true
not-false {b = true} h = refl
not-false {b = false} h = cc

pub and-false : {b c : Bool} → b ≡ true → b && c ≡ false → c ≡ false
and-false {b = true} e h = h
and-false {b = false} e h = cc

pub and-false_of : {b c : Bool} → (b ≡ true → c ≡ false) → b && c ≡ false
and-false_of {b = true} h = h refl
and-false_of {b = false} h = refl

pub text_eq-false : (x y : Codes) → (text_eq x y ≡ false) ↔ (x ≢ y)
text_eq-false x y = (
  λ h e. let k : text_eq x y ≡ true = rw e (text_eq_refl y) in cc,
  λ n. elim (Bool-cases (text_eq x y)) [ inl e ↦ absurd (n (text_eq→eq x y e)) | inr e ↦ e ],
)

-- No element has a value that was seen before.
module _ {ℓ} {A : Type ℓ} (f : A → ℤ) where
  abbrev pub Fresh : List ℤ → List A → Type 0
  Fresh seen xs = All (λ x. has_int seen (f x) ≡ false) xs

  pub Fresh-cons :
      (seen : List ℤ) (k : ℤ) (xs : List A)
      → Fresh (k ∷ seen) xs ↔ (All (λ x. f x ≢ k) xs × Fresh seen xs)
  unfolding has_int
  Fresh-cons seen k [] = (λ h. (tt, tt), λ h. tt)
  Fresh-cons seen k (x ∷ xs) = (
    λ (h, hs).
        let (apart, rest) = (Fresh-cons seen k xs).0 hs in
        (((int_eq-false (f x) k).0 (ground arith), apart), (ground arith, rest)),
    λ ((n, ns), (g, gs)).
        (ground (arith, (int_eq-false (f x) k).1 n), (Fresh-cons seen k xs).1 (ns, gs)),
  )

module _ {ℓ} {A : Type ℓ} (f : A → Codes) where
  abbrev pub FreshText : List Codes → List A → Type 0
  FreshText seen xs = All (λ x. any (text_eq (f x)) seen ≡ false) xs

  pub FreshText-cons :
      (seen : List Codes) (k : Codes) (xs : List A)
      → FreshText (k ∷ seen) xs ↔ (All (λ x. f x ≢ k) xs × FreshText seen xs)
  FreshText-cons seen k [] = (λ h. (tt, tt), λ h. tt)
  FreshText-cons seen k (x ∷ xs) = (
    λ (h, hs).
        let (apart, rest) = (FreshText-cons seen k xs).0 hs in
        (((text_eq-false (f x) k).0 (ground arith), apart), (ground arith, rest)),
    λ ((n, ns), (g, gs)).
        (ground (arith, (text_eq-false (f x) k).1 n), (FreshText-cons seen k xs).1 (ns, gs)),
  )

-- Nothing was seen before a loop starts.
pub Fresh-nil {ℓ} : {A : Type ℓ} (f : A → ℤ) (xs : List A) → Fresh f [] xs
unfolding has_int
Fresh-nil f [] = tt
Fresh-nil f (x ∷ xs) = (refl, Fresh-nil f xs)

pub FreshText-nil {ℓ} : {A : Type ℓ} (f : A → Codes) (xs : List A) → FreshText f [] xs
FreshText-nil f [] = tt
FreshText-nil f (x ∷ xs) = (refl, FreshText-nil f xs)
