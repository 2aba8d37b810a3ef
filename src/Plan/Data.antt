-- ===== src/Plan/Data.antt =====
-- The types of internal/plan/plan.go and internal/plan/artifacts.go. A text that the code trims or
-- measures is its code points, a word that it only compares is a string.
use mathlib.Core.List.{Memᴰ}
use collomia.Common.{
  ℕ, List, String, Option, some, none, [], ◌∷◌, if◌then◌else◌, ◌≡◌, refl, inl, inr, Bool-cases,
  Option-cases, arith,
}
use collomia.Common.Text.{Codes}
use collomia.Common.Int.{ℤ, int_eq, int_eq→eq}

pub record Step : Type 0 where
  pub id : ℤ
  pub title : Codes
  pub status : String
  pub depends_on : List ℤ
  pub acceptance : List Codes
  pub execution : String
  pub write_paths : List Codes
  pub evidence : Codes

pub record FailureResolution : Type 0 where
  pub failure_id : Codes
  pub disposition : String
  pub step_id : ℤ
  pub recovery_tool_call_id : Codes
  pub evidence : Codes

pub record Artifact : Type 0 where
  pub path : Codes
  pub role : String

-- `updated` is the time in nanoseconds.
pub record Plan : Type 0 where
  pub goal : Codes
  pub steps : List Step
  pub artifacts : List Artifact
  pub resolved_failures : List FailureResolution
  pub verification_note : Codes
  pub validation_note : Codes
  pub updated : ℕ

-- A map filled by a loop over the steps: the last step with an ID stands.
abbrev pub last_of {ℓ} : {A : Type ℓ} → (Step → A) → List Step → ℤ → Option A
last_of f [] id = none
last_of f (s ∷ ss) id = elim (last_of f ss id) [
  | some x ↦ some x
  | none ↦ if int_eq s.id id then some (f s) else none
]

pub last_of-Mem {ℓ} :
    {A : Type ℓ} (f : Step → A) (ss : List Step) (id : ℤ) {x : A}
    → last_of f ss id ≡ some x
    → (s : Step) × Memᴰ s ss × (s.id ≡ id) × (f s ≡ x)
last_of-Mem f [] id h = cc
last_of-Mem f (s ∷ ss) id h = elim (Option-cases (last_of f ss id)) [
  | inl e ↦ elim (Bool-cases (int_eq s.id id)) [
    | inl k ↦ (s, Memᴰ.head refl, int_eq→eq s.id id k, ground arith)
    | inr k ↦ ground arith
  ]
  | inr (y, e) ↦
      let (t, m, same, value) = last_of-Mem f ss id e in (t, Memᴰ.tail m, same, ground arith)
]
