-- ===== src/GoalGraph/Slots.antt =====
-- The lookups of internal/goalgraph/graph.go and the writes through the pointers that they return:
-- the first element that passes a test, and a list in which that element is replaced.
use mathlib.Core.List.{Memᴰ}
use collomia.Common.{
  ℕ, ◌+◌, ◌<◌, Bool, true, false, List, [], ◌∷◌, ◌++◌, any, count, map, Option, none, some,
  if◌then◌else◌, ◌≡◌, refl, sym, arith, Bool-cases, inl, inr, All,
}

-- 1 for an element that passes a test, 0 otherwise.
abbrev pub unit : Bool → ℕ
unit b = if b then 1 else 0

module _ {ℓ} {A : Type ℓ} where
  unfoldable pub find : (A → Bool) → List A → Option A
  find p [] = none
  find p (x ∷ xs) = let rest = find p xs in if p x then some x else rest

  unfoldable pub write : (A → Bool) → A → List A → List A
  write p v [] = []
  write p v (x ∷ xs) = let rest = write p v xs in if p x then v ∷ xs else x ∷ rest

module _ {ℓ} {A : Type ℓ} (p : A → Bool) where
  pub find-Mem : {x : A} (xs : List A) → find p xs ≡ some x → Memᴰ x xs × (p x ≡ true)
  unfolding find
  find-Mem [] h = cc
  find-Mem {x} (y ∷ ys) h = elim (Bool-cases (p y)) [
    | inl e ↦ let same : y ≡ x = ground arith in (Memᴰ.head (sym same), rw (← same) e)
    | inr e ↦ let (m, t) = find-Mem ys (ground arith) in (Memᴰ.tail m, t)
  ]

  -- Nothing is found where nothing passes.
  pub find-none : (xs : List A) → find p xs ≡ none → count p xs ≡ 0
  unfolding find
  find-none [] h = refl
  find-none (y ∷ ys) h = ground (arith, find-none ys)

  pub count-find : (xs : List A) → count p xs ≡ 0 → find p xs ≡ none
  unfolding find
  count-find [] h = refl
  count-find (y ∷ ys) h = ground (arith, count-find ys)

module _ {ℓ} {A : Type ℓ} (p q : A → Bool) where
  -- A write changes a count by the element that it replaces and the one that it puts there.
  pub count-write :
      {x : A} (v : A) (xs : List A)
      → find p xs ≡ some x
      → count q (write p v xs) + unit (q x) ≡ count q xs + unit (q v)
  unfolding find write
  count-write v [] h = cc
  count-write {x} v (y ∷ ys) h = ground (arith, count-write {x = x} v ys)

  pub find-map :
      (f : A → A) (xs : List A)
      → ((x : A) → q (f x) ≡ q x)
      → {x : A} → find q xs ≡ some x
      → find q (map f xs) ≡ some (f x)
  unfolding find
  find-map f [] h e = cc
  find-map f (y ∷ ys) h {x} e = ground (arith, h y, find-map f ys h {x = x})

module _ {ℓ} {A : Type ℓ} (p q : A → Bool) where
  pub count-pos : {x : A} (xs : List A) → find p xs ≡ some x → q x ≡ true → 0 < count q xs
  unfolding find
  count-pos [] h e = cc
  count-pos {x} (y ∷ ys) h e = ground (arith, count-pos {x = x} ys)

  -- Where one element passes a test, it is the one that is found.
  pub find_unique :
      {x y : A} (xs : List A)
      → count q xs ≡ 1
      → find q xs ≡ some x
      → find p xs ≡ some y
      → q y ≡ true
      → y ≡ x
  unfolding find
  find_unique [] one h k e = cc
  find_unique {x} {y} (z ∷ zs) one h k e =
      ground (arith, find_unique {x = x} {y = y} zs, count-pos {x = y} zs)

  pub find-write :
      {x : A} (v : A) (xs : List A)
      → count q xs ≡ 1
      → find p xs ≡ some x
      → q x ≡ true
      → q v ≡ true
      → find q (write p v xs) ≡ some v
  unfolding find write
  find-write v [] one h e f = cc
  find-write {x} v (z ∷ zs) one h e f =
      ground (arith, find-write {x = x} v zs, count-pos {x = x} zs)

module _ {ℓ} {A : Type ℓ} (q : A → Bool) where
  pub find-append :
      (xs : List A) {x : A} → count q xs ≡ 0 → q x ≡ true → find q (xs ++ x ∷ []) ≡ some x
  unfolding find
  find-append [] none_yet e = ground arith
  find-append (z ∷ zs) {x} none_yet e = ground (arith, find-append zs {x = x})

module _ {ℓ κ} {A : Type ℓ} {B : Type κ} (p : A → Bool) (f : A → B) where
  -- A write that keeps a value keeps the list of values.
  pub map-write :
      {x : A} (v : A) (xs : List A)
      → find p xs ≡ some x
      → f v ≡ f x
      → map f (write p v xs) ≡ map f xs
  unfolding find write
  map-write v [] h e = cc
  map-write {x} v (y ∷ ys) h e = ground (arith, map-write {x = x} v ys)

module _ {ℓ κ} {A : Type ℓ} (P : A → Type κ) (p : A → Bool) where
  pub All-write : (v : A) (xs : List A) → P v → All P xs → All P (write p v xs)
  unfolding write
  All-write v [] h all = tt
  All-write v (y ∷ ys) h all = elim (Bool-cases (p y)) [
    | inl e ↦ rw e (h, all.1)
    | inr e ↦ rw e (all.0, All-write v ys h all.1)
  ]

pub not_any→count {ℓ} :
    {A : Type ℓ} (q : A → Bool) (xs : List A) → any q xs ≡ false → count q xs ≡ 0
not_any→count q [] h = refl
not_any→count q (x ∷ xs) h = ground (arith, not_any→count q xs)

pub count→not_any {ℓ} :
    {A : Type ℓ} (q : A → Bool) (xs : List A) → count q xs ≡ 0 → any q xs ≡ false
count→not_any q [] h = refl
count→not_any q (x ∷ xs) h = ground (arith, count→not_any q xs)
