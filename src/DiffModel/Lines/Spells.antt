-- ===== src/DiffModel/Lines/Spells.antt =====
-- internal/diffmodel/diff.go, lcsOps: the lines that the operations tell of.
use collomia.Common.{
  ℕ, zero, suc, ◌+◌, ◌≤◌, Bool, true, false, List, [], ◌∷◌, length, leb, ◌≡◌, refl, ap, ◌∙◌,
  Bool-cases, inl, inr, arith,
}
use collomia.Common.Text.{Codes, text_eq, text_eq→eq}
use collomia.DiffModel.Lines.{same, removed, added, DiffOp, cell, all_removed, all_added, walk}

-- The lines of the old and of the new side that operations tell of.
abbrev pub old_lines : List DiffOp → List Codes
old_lines [] = []
old_lines (o ∷ os) = elim o.kind [
  | same ↦ o.text ∷ old_lines os
  | removed ↦ o.text ∷ old_lines os
  | added ↦ old_lines os
]

abbrev pub new_lines : List DiffOp → List Codes
new_lines [] = []
new_lines (o ∷ os) = elim o.kind [
  | same ↦ o.text ∷ new_lines os
  | removed ↦ new_lines os
  | added ↦ o.text ∷ new_lines os
]

abbrev pub is_same : DiffOp → Bool
is_same o = elim o.kind [ same ↦ true | removed ↦ false | added ↦ false ]

-- A list of lines that is a part of another one, in order.
pub data Part : List Codes → List Codes → Type 0 where
  nothing : {a : List Codes} → Part [] a
  takes : {x z : Codes} {c a : List Codes} → z ≡ x → Part c a → Part (z ∷ c) (x ∷ a)
  skips : {x : Codes} {c a : List Codes} → Part c a → Part c (x ∷ a)

abbrev pub Spells : List Codes → List Codes → List DiffOp → Type 0
Spells a b os = (old_lines os ≡ a) × (new_lines os ≡ b)

all_removed-Spells : (i j : ℕ) (xs : List Codes) → Spells xs [] (all_removed i j xs)
unfolding all_removed
all_removed-Spells i j [] = (refl, refl)
all_removed-Spells i j (x ∷ xs) =
    let rest = all_removed-Spells (i + 1) j xs in (ap (λ ys. x ∷ ys) rest.0, rest.1)

all_added-Spells : (i j : ℕ) (ys : List Codes) → Spells [] ys (all_added i j ys)
unfolding all_added
all_added-Spells i j [] = (refl, refl)
all_added-Spells i j (y ∷ ys) =
    let rest = all_added-Spells i (j + 1) ys in (rest.0, ap (λ xs. y ∷ xs) rest.1)

pub walk-Spells :
    (fuel : ℕ) (t : List (List ℕ)) (i j : ℕ) (xs ys : List Codes)
    → length xs + length ys ≤ fuel
    → Spells xs ys (walk fuel t i j xs ys)
unfolding walk
walk-Spells fuel t i j [] ys h = all_added-Spells i j ys
walk-Spells fuel t i j (x ∷ xs) [] h = all_removed-Spells i j (x ∷ xs)
walk-Spells zero t i j (x ∷ xs) (y ∷ ys) h = absurd (omega arith)
walk-Spells (suc fuel) t i j (x ∷ xs) (y ∷ ys) h = elim (Bool-cases (text_eq x y)) [
  | inl e ↦
      let rest = walk-Spells fuel t (i + 1) (j + 1) xs ys (omega arith) in
      rw (e, walk)
        (ap (λ zs. x ∷ zs) rest.0, ap (λ zs. x ∷ zs) rest.1 ∙ ap (λ z. z ∷ ys) (text_eq→eq x y e))
  | inr e ↦ elim (Bool-cases (leb (cell t i (j + 1)) (cell t (i + 1) j))) [
    | inl f ↦
        let rest = walk-Spells fuel t (i + 1) j xs (y ∷ ys) (omega arith) in
        rw (e, walk) (rw (f, walk) (ap (λ zs. x ∷ zs) rest.0, rest.1))
    | inr f ↦
        let rest = walk-Spells fuel t i (j + 1) (x ∷ xs) ys (omega arith) in
        rw (e, walk) (rw (f, walk) (rest.0, ap (λ zs. y ∷ zs) rest.1))
  ]
]
