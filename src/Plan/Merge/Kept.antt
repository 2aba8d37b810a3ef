-- ===== src/Plan/Merge/Kept.antt =====
-- A progress update of internal/plan/plan.go forgets no step: mergePlan on the steps.
use collomia.Common.{
  ℕ, zero, suc, ◌<◌, ◌≤◌, ◌+◌, List, [], ◌∷◌, ◌++◌, some, length, length-append, ◌≡◌, ◌≢◌, inl, inr,
  refl, ap, sym, ◌∙◌, arith, true, Option-cases, All,
}
use collomia.Common.Int.{ℤ, int_eq, int_eq→eq}
use collomia.Plan.Merge.{
  Json, Object, modify, get_elem?, put_all, update_id, position, kept_id, merge_step, merge_steps,
}

module _ {ℓ} {A : Type ℓ} where
  length-modify : (n : ℕ) (f : A → A) (xs : List A) → length (modify n f xs) ≡ length xs
  length-modify n f [] = refl
  length-modify zero f (x ∷ xs) = refl
  length-modify (suc n) f (x ∷ xs) = ap suc (length-modify n f xs)

  get_elem?-modify :
      (n i : ℕ) (f : A → A) (xs : List A) → n ≢ i → get_elem? (modify n f xs) i ≡ get_elem? xs i
  get_elem?-modify n i f [] h = refl
  get_elem?-modify zero zero f (x ∷ xs) h = absurd (h refl)
  get_elem?-modify zero (suc i) f (x ∷ xs) h = refl
  get_elem?-modify (suc n) zero f (x ∷ xs) h = refl
  get_elem?-modify (suc n) (suc i) f (x ∷ xs) h = get_elem?-modify n i f xs (λ e. h (ap suc e))

  get_elem?-append :
      (xs ys : List A) (i : ℕ) → i < length xs → get_elem? (xs ++ ys) i ≡ get_elem? xs i
  get_elem?-append [] ys i h = absurd (omega (arith, h))
  get_elem?-append (x ∷ xs) ys zero h = refl
  get_elem?-append (x ∷ xs) ys (suc i) h = get_elem?-append xs ys i (omega arith)

module _ (J : Json) where
  -- No update goes to the index.
  abbrev IsApart : List (Object J.Raw) → ℕ → List (Object J.Raw) → Type 0
  IsApart old i us = All (λ u. (id : ℤ) → update_id J u ≡ some id → position J 0 old id ≢ some i) us

  merge_step-kept :
      (old : List (Object J.Raw)) (id : ℤ) (u : Object J.Raw) (steps : List (Object J.Raw)) (i : ℕ)
      → position J 0 old id ≢ some i
      → i < length steps
      → (get_elem? (merge_step J old id u steps) i ≡ get_elem? steps i)
        × (i < length (merge_step J old id u steps))
  unfolding merge_step
  merge_step-kept old id u steps i h k = elim (Option-cases (position J 0 old id)) [
    | inl e ↦
        rw (merge_step, e)
          (get_elem?-append steps (u ∷ []) i k, omega (arith, k, length-append steps (u ∷ [])))
    | inr (n, e) ↦
        rw (merge_step, e)
          (
            get_elem?-modify n i (put_all u) steps (λ same. h (e ∙ ap some same)),
            omega (arith, k, length-modify n (put_all u) steps),
          )
  ]

  merge_steps-in_place :
      (old : List (Object J.Raw)) (seen : List ℤ) (steps us merged : List (Object J.Raw)) (i : ℕ)
      → merge_steps J old seen steps us ≡ some merged
      → IsApart old i us
      → i < length steps
      → get_elem? merged i ≡ get_elem? steps i
  unfolding merge_steps
  merge_steps-in_place old seen steps [] merged i h free k = ground arith
  merge_steps-in_place old seen steps (u ∷ us) merged i h (apart, free) k =
      elim (Option-cases (update_id J u)) [
        | inl e ↦ ground arith
        | inr (id, e) ↦
            let (same, room) = merge_step-kept old id u steps i (apart id e) k in
            merge_steps-in_place old (id ∷ seen) (merge_step J old id u steps) us merged i
              (ground arith) free room
            ∙ same
      ]

  position_low :
      (n k : ℕ) (old : List (Object J.Raw)) (id : ℤ) → position J n old id ≡ some k → n ≤ k
  unfolding position
  position_low n k [] id h = cc
  position_low n k (s ∷ ss) id h = elim (Option-cases (position J (suc n) ss id)) [
    | inl e ↦ ground (arith, h, e)
    | inr (j, e) ↦ let low = position_low (suc n) j ss id e in ground (arith, h, e, low)
  ]

  -- The step at a position has the ID.
  position-named :
      (n i : ℕ) (old : List (Object J.Raw)) (id : ℤ) (s : Object J.Raw)
      → get_elem? old i ≡ some s
      → position J n old id ≡ some (n + i)
      → id ≡ kept_id J s
  unfolding position
  position-named n i [] id s g h = cc
  position-named n zero (t ∷ ts) id s g h = elim (Option-cases (position J (suc n) ts id)) [
    | inl e ↦
        let same : t ≡ s = ground arith in
        let found : int_eq (kept_id J t) id ≡ true = ground (arith, h, e) in
        sym (int_eq→eq (kept_id J t) id found) ∙ ap (kept_id J) same
    | inr (j, e) ↦ let low = position_low (suc n) j ts id e in absurd (ground (arith, h, e, low))
  ]
  position-named n (suc i) (t ∷ ts) id s g h = elim (Option-cases (position J (suc n) ts id)) [
    | inl e ↦ absurd (ground (arith, h, e))
    | inr (j, e) ↦
        let here : j ≡ suc n + i = ground (arith, h, e) in
        position-named (suc n) i ts id s g (e ∙ ap some here)
  ]

  get_elem?-inside :
      (xs : List (Object J.Raw)) (i : ℕ) {x : Object J.Raw}
      → get_elem? xs i ≡ some x
      → i < length xs
  get_elem?-inside [] i h = cc
  get_elem?-inside (x ∷ xs) zero h = omega arith
  get_elem?-inside (x ∷ xs) (suc i) h = omega (arith, get_elem?-inside xs i h)

  -- No update has the ID.
  abbrev pub IsUnnamed : ℤ → List (Object J.Raw) → Type 0
  IsUnnamed step us = All (λ u. (id : ℤ) → update_id J u ≡ some id → id ≢ step) us

  unnamed→IsApart :
      (old us : List (Object J.Raw)) (i : ℕ) (s : Object J.Raw)
      → get_elem? old i ≡ some s
      → IsUnnamed (kept_id J s) us
      → IsApart old i us
  unnamed→IsApart old [] i s g h = tt
  unnamed→IsApart old (u ∷ us) i s g (free, rest) = (
    λ id e at. free id e (position-named 0 i old id s g (at ∙ ap some (omega arith))),
    unnamed→IsApart old us i s g rest,
  )

  -- A step of the plan whose ID, 0 where it cannot be read, is the ID of no update of an accepted
  -- merge is the same in the merged plan, in its old place.
  pub merge_steps-kept :
      (old us merged : List (Object J.Raw)) (i : ℕ) (s : Object J.Raw)
      → merge_steps J old [] old us ≡ some merged
      → get_elem? old i ≡ some s
      → IsUnnamed (kept_id J s) us
      → get_elem? merged i ≡ some s
  merge_steps-kept old us merged i s h g free =
      merge_steps-in_place old [] old us merged i h (unnamed→IsApart old us i s g free)
        (get_elem?-inside old i g)
      ∙ g
