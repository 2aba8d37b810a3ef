-- ===== src/DiffModel/Lines/Longest.antt =====
-- internal/diffmodel/diff.go, lcsOps: the table, and the lines that are kept.
use collomia.Common.{
  ℕ, zero, suc, ◌+◌, ◌≤◌, true, false, List, [], ◌∷◌, length, count, leb, if◌then◌else◌, ◌≡◌, refl,
  sym, ap, ◌∙◌, Bool-cases, inl, inr, ◌⊎◌, arith,
}
use collomia.Common.Text.{Codes, text_eq, eq→text_eq}
use collomia.DiffModel.Checkpoint.{max, drop}
use collomia.DiffModel.Lines.{
  head_of, tail_of, zeros, row_of, first_row, table_of, nth, nth_row, cell, all_removed, all_added,
  walk, lcs_ops,
}
use collomia.DiffModel.Lines.Spells.{is_same, Part, Spells, walk-Spells, nothing, takes, skips}

-- The first row of the table of a list, and its first cell.
abbrev row : List Codes → List Codes → List ℕ
row xs ys = first_row (table_of xs ys)

abbrev best : List Codes → List Codes → ℕ
best xs ys = head_of (row xs ys)

row-tail : (xs : List Codes) (y : Codes) (ys : List Codes) → tail_of (row xs (y ∷ ys)) ≡ row xs ys
unfolding table_of zeros row_of
row-tail [] y ys = refl
row-tail (x ∷ xs) y ys = ap (row_of x ys) (row-tail xs y ys)

best-empty : (xs : List Codes) → best xs [] ≡ 0
unfolding table_of zeros row_of
best-empty [] = refl
best-empty (x ∷ xs) = refl

best-none : (ys : List Codes) → best [] ys ≡ 0
unfolding table_of zeros
best-none [] = refl
best-none (y ∷ ys) = refl

best-cons :
    (x y : Codes) (xs ys : List Codes)
    → best (x ∷ xs) (y ∷ ys)
      ≡ (if text_eq x y then best xs ys + 1 else max (best xs (y ∷ ys)) (best (x ∷ xs) ys))
unfolding table_of row_of
best-cons x y xs ys = rw (row-tail xs y ys) refl

Part-weaken : {z : Codes} {c : List Codes} (a : List Codes) → Part (z ∷ c) a → Part c a
Part-weaken [] p = elim p [ ]
Part-weaken (x ∷ a) (takes e p) = skips p
Part-weaken (x ∷ a) (skips p) = skips (Part-weaken a p)

Part-tail : {z x : Codes} {c a : List Codes} → Part (z ∷ c) (x ∷ a) → Part c a
Part-tail (takes e p) = p
Part-tail {a} (skips p) = Part-weaken a p

-- Two lists that begin with different lines: a common part leaves out one of them.
Part-split :
    {c xs ys : List Codes} (x y : Codes)
    → text_eq x y ≡ false
    → Part c (x ∷ xs)
    → Part c (y ∷ ys)
    → Part c xs ⊎ Part c ys
Part-split x y h nothing q = inl nothing
Part-split x y h (skips p) q = inl p
Part-split x y h (takes e p) (skips q) = inr q
Part-split x y h (takes e p) (takes f q) =
    let t : text_eq x y ≡ true = eq→text_eq x y (sym e ∙ f) in absurd (cc)

-- No common part is longer than the first cell says.
best-longest : (xs ys c : List Codes) → Part c xs → Part c ys → length c ≤ best xs ys
best-longest [] ys [] p q = omega arith
best-longest [] ys (z ∷ c) p q = elim p [ ]
best-longest (x ∷ xs) [] [] p q = omega arith
best-longest (x ∷ xs) [] (z ∷ c) p q = elim q [ ]
best-longest (x ∷ xs) (y ∷ ys) [] p q = omega arith
best-longest (x ∷ xs) (y ∷ ys) (z ∷ c) p q = elim (Bool-cases (text_eq x y)) [
  | inl e ↦
      let h = best-longest xs ys c (Part-tail p) (Part-tail q) in
      rw (best-cons x y xs ys) (rw e (omega (arith, h)))
  | inr e ↦ rw (best-cons x y xs ys) (
      rw e (elim (Part-split x y e p q) [
        | inl p' ↦ let h = best-longest xs (y ∷ ys) (z ∷ c) p' q in ground (arith, h)
        | inr q' ↦ let h = best-longest (x ∷ xs) ys (z ∷ c) p q' in ground (arith, h)
      ]))
]

-- A table shows the best lengths of what is left, from a cell on.
abbrev Shows : List (List ℕ) → ℕ → ℕ → List Codes → List Codes → Type 0
Shows t i j xs ys = (m n : ℕ) → cell t (i + m) (j + n) ≡ best (drop m xs) (drop n ys)

nth-zero : (r : List ℕ) → nth 0 r ≡ head_of r
unfolding nth
nth-zero [] = refl
nth-zero (v ∷ vs) = refl

nth-suc : (n : ℕ) (r : List ℕ) → nth (suc n) r ≡ nth n (tail_of r)
unfolding nth
nth-suc n [] = refl
nth-suc n (v ∷ vs) = refl

row-nil : (xs : List Codes) → row xs [] ≡ 0 ∷ []
unfolding table_of zeros row_of
row-nil [] = refl
row-nil (x ∷ xs) = refl

nth-zeros : (n : ℕ) (ys : List Codes) → nth n (zeros ys) ≡ 0
unfolding nth zeros
nth-zeros zero [] = refl
nth-zeros (suc n) [] = refl
nth-zeros zero (y ∷ ys) = refl
nth-zeros (suc n) (y ∷ ys) = nth-zeros n ys

nth-row : (n : ℕ) (xs ys : List Codes) → nth n (row xs ys) ≡ best xs (drop n ys)
unfolding drop nth
nth-row zero xs ys = nth-zero (row xs ys)
nth-row (suc n) xs [] = ap (nth (suc n)) (row-nil xs) ∙ sym (best-empty xs)
nth-row (suc n) xs (y ∷ ys) =
    nth-suc n (row xs (y ∷ ys)) ∙ ap (nth n) (row-tail xs y ys) ∙ nth-row n xs ys

nth_row-table :
    (m n : ℕ) (a b : List Codes) → nth n (nth_row m (table_of a b)) ≡ nth n (row (drop m a) b)
unfolding drop nth nth_row table_of
nth_row-table zero n [] b = refl
nth_row-table zero n (x ∷ a) b = refl
nth_row-table (suc m) n [] b = sym (nth-zeros n b)
nth_row-table (suc m) n (x ∷ a) b = nth_row-table m n a b

table_of-Shows : (a b : List Codes) → Shows (table_of a b) 0 0 a b
table_of-Shows a b m n =
    let e : 0 + m ≡ m = omega arith in
    let f : 0 + n ≡ n = omega arith in rw e (rw f (nth_row-table m n a b ∙ nth-row n (drop m a) b))

module _ (t : List (List ℕ)) (i j : ℕ) where
  Shows-down : (x : Codes) (xs ys : List Codes) → Shows t i j (x ∷ xs) ys → Shows t (i + 1) j xs ys
  unfolding drop
  Shows-down x xs ys h m n = let e : (i + 1) + m ≡ i + suc m = omega arith in rw e (h (suc m) n)

  Shows-right : (y : Codes) (xs ys : List Codes) → Shows t i j xs (y ∷ ys) → Shows t i (j + 1) xs ys
  unfolding drop
  Shows-right y xs ys h m n = let e : (j + 1) + n ≡ j + suc n = omega arith in rw e (h m (suc n))

  -- The two cells that a step of the walk compares.
  Shows-cells :
      (x y : Codes) (xs ys : List Codes)
      → Shows t i j (x ∷ xs) (y ∷ ys)
      → (cell t i (j + 1) ≡ best (x ∷ xs) ys) × (cell t (i + 1) j ≡ best xs (y ∷ ys))
  unfolding drop
  Shows-cells x y xs ys h =
      let e : i + 0 ≡ i = omega arith in
      let f : j + 0 ≡ j = omega arith in
      (ap (λ k. cell t k (j + 1)) (sym e) ∙ h 0 1, ap (λ k. cell t (i + 1) k) (sym f) ∙ h 1 0)

all_added-none : (i j : ℕ) (ys : List Codes) → count is_same (all_added i j ys) ≡ 0
unfolding all_added
all_added-none i j [] = refl
all_added-none i j (y ∷ ys) = all_added-none i (j + 1) ys

all_removed-none : (i j : ℕ) (xs : List Codes) → count is_same (all_removed i j xs) ≡ 0
unfolding all_removed
all_removed-none i j [] = refl
all_removed-none i j (x ∷ xs) = all_removed-none (i + 1) j xs

max_first : (u v p q : ℕ) → p ≡ v → q ≡ u → leb p q ≡ true → u ≡ max u v
max_first u v p q a b h = ground arith

max_second : (u v p q : ℕ) → p ≡ v → q ≡ u → leb p q ≡ false → v ≡ max u v
max_second u v p q a b h = ground arith

walk-best :
    (fuel : ℕ) (t : List (List ℕ)) (i j : ℕ) (xs ys : List Codes)
    → length xs + length ys ≤ fuel
    → Shows t i j xs ys
    → count is_same (walk fuel t i j xs ys) ≡ best xs ys
unfolding walk
walk-best fuel t i j [] ys h s = all_added-none i j ys ∙ sym (best-none ys)
walk-best fuel t i j (x ∷ xs) [] h s = all_removed-none i j (x ∷ xs) ∙ sym (best-empty (x ∷ xs))
walk-best zero t i j (x ∷ xs) (y ∷ ys) h s = absurd (omega arith)
walk-best (suc fuel) t i j (x ∷ xs) (y ∷ ys) h s =
    let cells = Shows-cells t i j x y xs ys s in
    let down = Shows-down t i j x xs (y ∷ ys) s in
    let right = Shows-right t i j y (x ∷ xs) ys s in
    elim (Bool-cases (text_eq x y)) [
      | inl e ↦
          let rest =
            walk-best fuel t (i + 1) (j + 1) xs ys (omega arith)
              (Shows-down t i (j + 1) x xs ys right) in
          rw (e, walk) (rw (best-cons x y xs ys) (rw e (omega (arith, rest))))
      | inr e ↦ elim (Bool-cases (leb (cell t i (j + 1)) (cell t (i + 1) j))) [
        | inl f ↦
            let rest = walk-best fuel t (i + 1) j xs (y ∷ ys) (omega arith) down in
            rw (e, walk)
              (rw (f, walk)
                (rw (best-cons x y xs ys) (rw e (rest ∙ max_first _ _ _ _ cells.0 cells.1 f))))
        | inr f ↦
            let rest = walk-best fuel t i (j + 1) (x ∷ xs) ys (omega arith) right in
            rw (e, walk)
              (rw (f, walk)
                (rw (best-cons x y xs ys) (rw e (rest ∙ max_second _ _ _ _ cells.0 cells.1 f))))
      ]
    ]

-- The operations spell both lists of lines: the lines that are the same or removed are the old
-- list, those that are the same or added the new one. They leave at least as many lines the same
-- as any list of lines has that is a part of both, in order.
pub lcs_ops-IsLongest :
    (a b : List Codes)
    → Spells a b (lcs_ops a b)
      × ((c : List Codes) → Part c a → Part c b → length c ≤ count is_same (lcs_ops a b))
unfolding lcs_ops
lcs_ops-IsLongest a b =
    let all_of =
      walk-best (length a + length b) (table_of a b) 0 0 a b (omega arith) (table_of-Shows a b) in
    (
      walk-Spells (length a + length b) (table_of a b) 0 0 a b (omega arith),
      λ c p q. let h = best-longest a b c p q in omega (arith, all_of, h),
    )
