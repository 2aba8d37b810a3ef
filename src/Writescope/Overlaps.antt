-- ===== src/Writescope/Overlaps.antt =====
-- Overlap and Violations of internal/writescope/scope.go decide what they are meant to.
use mathlib.Core.List.{Memᴰ}
use collomia.Common.{
  ℕ, true, false, ◌&&◌, List, [], ◌∷◌, any, is_empty, ◌≡◌, ◌⊎◌, ◌↔◌, inl, inr, refl, sym, ◌∙◌,
  arith, Bool-cases, any→Mem, Mem→any,
}
use collomia.Common.Text.{Codes, text_eq, has_prefix, ends_with, text_eq→eq, eq→text_eq}
use collomia.Writescope.{workspace, to_lower, pair_overlaps, overlap}

-- Two prefixes of one text are comparable.
prefix_comparable :
    (s x y : Codes)
    → has_prefix s x ≡ true
    → has_prefix s y ≡ true
    → (has_prefix x y ≡ true) ⊎ (has_prefix y x ≡ true)
unfolding has_prefix
prefix_comparable s [] y h k = inr refl
prefix_comparable s (b ∷ x) [] h k = inl refl
prefix_comparable [] (b ∷ x) (c ∷ y) h k = cc
prefix_comparable (a ∷ s) (b ∷ x) (c ∷ y) h k = ground (arith, prefix_comparable s x y)

has_prefix_refl : (s : Codes) → has_prefix s s ≡ true
unfolding has_prefix
has_prefix_refl [] = refl
has_prefix_refl (a ∷ s) = ground (arith, has_prefix_refl s)

pub Mem-not_empty : {x : Codes} {xs : List Codes} → Memᴰ x xs → is_empty xs ≡ false
Mem-not_empty (Memᴰ.head e) = refl
Mem-not_empty (Memᴰ.tail m) = refl

module _ (lower : ℕ → ℕ) where
  -- A scope addresses a path, letters compared without case: it is the whole workspace, the path
  -- itself, or a directory with the path below it.
  abbrev pub Addresses : Codes → Codes → Type 0
  Addresses s p =
      (s ≡ workspace)
      ⊎ (to_lower lower s ≡ to_lower lower p)
      ⊎ ((ends_with s b'/' ≡ true) × (has_prefix (to_lower lower p) (to_lower lower s) ≡ true))

  Addresses-self : (s : Codes) → Addresses s s
  Addresses-self s = inr (inl refl)

  pair_sound :
      (a b : Codes) → pair_overlaps lower a b ≡ true → (p : Codes) × Addresses a p × Addresses b p
  unfolding pair_overlaps
  pair_sound a b h = elim (Bool-cases (text_eq a workspace)) [
    | inl e ↦ (b, inl (text_eq→eq _ _ e), Addresses-self b)
    | inr e ↦ elim (Bool-cases (text_eq b workspace)) [
      | inl f ↦ (a, Addresses-self a, inl (text_eq→eq _ _ f))
      | inr f ↦ elim (Bool-cases (text_eq (to_lower lower a) (to_lower lower b))) [
        | inl g ↦ (a, Addresses-self a, inr (inl (sym (text_eq→eq _ _ g))))
        | inr g ↦
            elim (Bool-cases
              (ends_with a b'/' && has_prefix (to_lower lower b) (to_lower lower a))) [
                | inl k ↦ (b, inr (inr (ground arith, ground arith)), Addresses-self b)
                | inr k ↦ (a, Addresses-self a, inr (inr (ground arith, ground arith)))
              ]
      ]
    ]
  ]

  pair_complete : (a b p : Codes) → Addresses a p → Addresses b p → pair_overlaps lower a b ≡ true
  unfolding pair_overlaps
  pair_complete a b p (inl e) k = ground (arith, eq→text_eq a workspace e)
  pair_complete a b p (inr h) (inl f) = ground (arith, eq→text_eq b workspace f)
  pair_complete a b p (inr (inl e)) (inr (inl f)) =
      ground (arith, eq→text_eq (to_lower lower a) (to_lower lower b) (e ∙ sym f))
  pair_complete a b p (inr (inl e)) (inr (inr (d, f))) =
      let g : has_prefix (to_lower lower a) (to_lower lower b) ≡ true = rw e f in ground arith
  pair_complete a b p (inr (inr (d, e))) (inr (inl f)) =
      let g : has_prefix (to_lower lower b) (to_lower lower a) ≡ true = rw f e in ground arith
  pair_complete a b p (inr (inr (d, e))) (inr (inr (c, f))) =
      ground (arith, prefix_comparable (to_lower lower p) (to_lower lower a) (to_lower lower b) e f)

  -- Two sets of scopes overlap exactly when a scope of each addresses one and the same path.
  pub overlap_iff :
      (left right : List Codes)
      → (overlap lower left right ≡ true) ↔ (
          (p : Codes) × ((a : Codes) × Memᴰ a left × Addresses a p)
          × ((b : Codes) × Memᴰ b right × Addresses b p))
  unfolding overlap
  overlap_iff left right = (
    λ h.
        let (a, m, k) =
          any→Mem (λ a. any (λ b. pair_overlaps lower a b) right) left (ground arith) in
        let (b, n, q) = any→Mem (λ b. pair_overlaps lower a b) right k in
        let (p, x, y) = pair_sound a b q in (p, (a, m, x), (b, n, y)),
    λ (p, (a, m, x), (b, n, y)).
        let inner : any (λ b. pair_overlaps lower a b) right ≡ true =
          Mem→any (λ b. pair_overlaps lower a b) n (pair_complete a b p x y) in
        let outer : any (λ a. any (λ b. pair_overlaps lower a b) right) left ≡ true =
          Mem→any (λ a. any (λ b. pair_overlaps lower a b) right) m inner in
        ground (arith, Mem-not_empty m, Mem-not_empty n),
  )
