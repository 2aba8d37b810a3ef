-- ===== src/Writescope/Tests.antt =====
-- Runs of internal/writescope/scope.go on concrete scopes, and the theorems there.
use mathlib.Core.List.{Memᴰ}
use collomia.Common.{
  ◌⊎◌, All, ℕ, true, false, List, [], ◌∷◌, map, ◌≡◌, ◌≢◌, refl, ltb, ◌&&◌, ◌+◌, if◌then◌else◌,
  arith,
}
use collomia.Common.Text.{Codes, codes}
use collomia.Writescope.{
  Normalized, normal, failed, needs_write, not_relative, escapes, normalize, overlap, violations,
  changed_path, workspace,
}
use collomia.Writescope.Normal.{IsNormal, KeepsSlash, normalize-Normal}
use collomia.Writescope.Inside.{IsInside, normalize-IsInside}
use collomia.Writescope.Disjoint.{violations_disjoint}

-- The letters A to Z, in lower case.
abbrev ascii : ℕ → ℕ
ascii c = if ltb 64 c && ltb c 91 then c + 32 else c

abbrev run : List Codes → Normalized
run scopes = normalize ascii ascii scopes true

normalize_tests :
    (run (codes " src/./a " ∷ codes "src/" ∷ codes "SRC" ∷ [])
      ≡ normal (codes "SRC" ∷ codes "src/" ∷ []))
    × (run (codes "src/b" ∷ codes "SRC/B" ∷ codes "src/b" ∷ []) ≡ normal (codes "SRC/B" ∷ []))
    × (run [] ≡ normal (workspace ∷ []))
    × (run (codes "a" ∷ codes "*" ∷ []) ≡ normal (workspace ∷ []))
    × (run (codes "a/../.." ∷ []) ≡ failed escapes)
    × (run (codes "/etc" ∷ []) ≡ failed not_relative)
    × (run (codes "*.go" ∷ []) ≡ failed not_relative)
    × (normalize ascii ascii (codes "a" ∷ []) false ≡ failed needs_write)
unfolding normalize
normalize_tests = (refl, refl, refl, refl, refl, refl, refl, refl)

violations_tests :
    (violations
        (codes "src/" ∷ codes "go.mod" ∷ [])
        (codes "./src\\x" ∷ codes "z" ∷ codes "go.sum" ∷ [])
      ≡ codes "go.sum" ∷ codes "z" ∷ [])
    × (violations (codes "src/" ∷ []) (codes "SRC/x" ∷ []) ≡ codes "SRC/x" ∷ [])
    × (violations (workspace ∷ []) (codes "z" ∷ []) ≡ [])
unfolding violations
violations_tests = (refl, refl, refl)

abbrev left : List Codes
left = codes "src/" ∷ []

abbrev right : List Codes
right = codes "docs/" ∷ codes "srcs" ∷ []

no_overlap : overlap ascii left right ≡ false
unfolding overlap
no_overlap = refl

left_kept : violations left (codes "src/a" ∷ []) ≡ []
unfolding violations
left_kept = refl

right_kept : violations right (codes "./srcs" ∷ []) ≡ []
unfolding violations
right_kept = refl

violations_disjoint_example :
    map ascii (changed_path (codes "src/a")) ≢ map ascii (changed_path (codes "./srcs"))
violations_disjoint_example =
    violations_disjoint ascii left right (codes "src/a" ∷ []) (codes "./srcs" ∷ []) (codes "src/a")
      (codes "./srcs") refl refl no_overlap left_kept right_kept (Memᴰ.head refl) (Memᴰ.head refl)

abbrev declared : List Codes
declared = codes " src/./a " ∷ codes "src/" ∷ codes "docs//x" ∷ []

abbrev kept : List Codes
kept = codes "docs/x" ∷ codes "src/" ∷ []

kept_test : normalize ascii ascii declared true ≡ normal kept
unfolding normalize
kept_test = refl

slash_alone : KeepsSlash ascii ascii
slash_alone c h = ground arith

normalize-Normal_example : IsNormal ascii ascii declared kept
normalize-Normal_example = normalize-Normal ascii ascii declared kept slash_alone kept_test

normalize-IsInside_example : (kept ≡ workspace ∷ []) ⊎ All IsInside kept
normalize-IsInside_example = normalize-IsInside ascii ascii declared kept kept_test
