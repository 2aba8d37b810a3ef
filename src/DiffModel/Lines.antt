-- ===== src/DiffModel/Lines.antt =====
-- internal/diffmodel/diff.go, lcsOps and Align: the operations that turn one list of lines into
-- another, found with a table of longest common subsequences.
pub mod Longest
pub mod Spells
use collomia.Common.{
  ℕ, zero, suc, ◌+◌, ◌*◌, ◌≤◌, Bool, true, false, List, [], ◌∷◌, length, ltb, leb, if◌then◌else◌,
}
use collomia.Common.Text.{Codes, text_eq}
use collomia.DiffModel.Checkpoint.{max}

-- The kinds ' ', '-' and '+' of a diffOp.
pub data OpKind : Type 0 where
  same : OpKind
  removed : OpKind
  added : OpKind

pub record DiffOp : Type 0 where
  pub kind : OpKind
  pub text : Codes
  pub a_line : ℕ
  pub b_line : ℕ

abbrev pub op_of : OpKind → Codes → ℕ → ℕ → DiffOp
op_of kind text i j = record { kind = kind; text = text; a_line = i; b_line = j }

abbrev pub head_of : List ℕ → ℕ
head_of [] = 0
head_of (n ∷ ns) = n

abbrev pub tail_of : List ℕ → List ℕ
tail_of [] = []
tail_of (n ∷ ns) = ns

-- The last row of the table.
unfoldable pub zeros : List Codes → List ℕ
zeros [] = 0 ∷ []
zeros (y ∷ ys) = 0 ∷ zeros ys

-- The row of a line, from the row below it.
unfoldable pub row_of : Codes → List Codes → List ℕ → List ℕ
unfolding text_eq
row_of x [] below = 0 ∷ []
row_of x (y ∷ ys) below =
    let rest = row_of x ys (tail_of below) in
    (if text_eq x y then head_of (tail_of below) + 1 else max (head_of below) (head_of rest)) ∷ rest

abbrev pub first_row : List (List ℕ) → List ℕ
first_row [] = []
first_row (r ∷ rs) = r

unfoldable pub table_of : List Codes → List Codes → List (List ℕ)
unfolding zeros row_of
table_of [] b = zeros b ∷ []
table_of (x ∷ xs) b = let rest = table_of xs b in row_of x b (first_row rest) ∷ rest

unfoldable pub nth : ℕ → List ℕ → ℕ
nth n [] = 0
nth zero (v ∷ vs) = v
nth (suc n) (v ∷ vs) = nth n vs

unfoldable pub nth_row : ℕ → List (List ℕ) → List ℕ
nth_row n [] = []
nth_row zero (r ∷ rs) = r
nth_row (suc n) (r ∷ rs) = nth_row n rs

-- table[i][j].
abbrev pub cell : List (List ℕ) → ℕ → ℕ → ℕ
cell t i j = nth j (nth_row i t)

unfoldable pub all_removed : ℕ → ℕ → List Codes → List DiffOp
all_removed i j [] = []
all_removed i j (x ∷ xs) = op_of removed x i j ∷ all_removed (i + 1) j xs

unfoldable pub all_added : ℕ → ℕ → List Codes → List DiffOp
all_added i j [] = []
all_added i j (y ∷ ys) = op_of added y i j ∷ all_added i (j + 1) ys

-- The walk from a cell, on the lines that are left on both sides.
unfoldable pub walk : ℕ → List (List ℕ) → ℕ → ℕ → List Codes → List Codes → List DiffOp
unfolding all_removed all_added text_eq nth nth_row
walk fuel t i j [] ys = all_added i j ys
walk fuel t i j (x ∷ xs) [] = all_removed i j (x ∷ xs)
walk zero t i j (x ∷ xs) (y ∷ ys) = []
walk (suc fuel) t i j (x ∷ xs) (y ∷ ys) = elim (text_eq x y) [
  | true ↦ op_of same x i j ∷ walk fuel t (i + 1) (j + 1) xs ys
  | false ↦ elim (leb (cell t i (j + 1)) (cell t (i + 1) j)) [
    | true ↦ op_of removed x i j ∷ walk fuel t (i + 1) j xs (y ∷ ys)
    | false ↦ op_of added y i j ∷ walk fuel t i (j + 1) (x ∷ xs) ys
  ]
]

-- The steps of the walk: each takes a line of one side at least.
unfoldable pub lcs_ops : List Codes → List Codes → List DiffOp
unfolding walk table_of
lcs_ops a b = walk (length a + length b) (table_of a b) 0 0 a b
