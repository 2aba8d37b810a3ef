-- ===== src/Writescope/Normal.antt =====
-- What Normalize of internal/writescope/scope.go returns, on the paths that scopes hold.
use mathlib.Core.List.{Memᴰ}
use collomia.Common.{
  ℕ, true, List, [], ◌∷◌, map, ◌≡◌, ◌⊎◌, inl, inr, ap, ◌∙◌, arith, All, All_of_Mem, All-Mem,
  Bool-cases, ==_iff,
}
use collomia.Common.Text.{Codes, text_eq, text_eq→eq, ends_with, has_prefix, has_prefix_trans}
use collomia.Writescope.Disjoint.{has_prefix-map}
use collomia.Writescope.{workspace, normal, path, check_scope, covers, normalize}
use collomia.Writescope.Collected.{HasCover, IsGiven, normalize-HasNormal}

module _ (lower fold : ℕ → ℕ) where
  -- The paths in a scope: the path itself, or those below a directory.
  abbrev pub Holds : Codes → Codes → Type 0
  Holds s p = (s ≡ p) ⊎ ((ends_with s b'/' ≡ true) × (has_prefix p s ≡ true))

  -- A path in a scope, letters compared without case, by the folding or by the lower case.
  abbrev pub Reaches : Codes → Codes → Type 0
  Reaches e p =
      (map fold e ≡ map fold p)
      ⊎ ((ends_with e b'/' ≡ true)
          × ((has_prefix (map fold p) (map fold e) ≡ true)
              ⊎ (has_prefix (map lower p) (map lower e) ≡ true)))

  -- One scope of a list reaches every path in a scope.
  abbrev pub IsCovered : List Codes → Codes → Type 0
  IsCovered out s = (e : Codes) × Memᴰ e out × ((p : Codes) → Holds s p → Reaches e p)

  -- No other character folds to the slash.
  abbrev pub KeepsSlash : Type 0
  KeepsSlash = (c : ℕ) → fold c ≡ fold b'/' → c ≡ b'/'

  abbrev head_or : ℕ → Codes → ℕ
  head_or d [] = d
  head_or d (x ∷ xs) = x

  abbrev tail_of : Codes → Codes
  tail_of [] = []
  tail_of (x ∷ xs) = xs

  ends_with-fold :
      (e s : Codes)
      → KeepsSlash
      → map fold e ≡ map fold s
      → ends_with s b'/' ≡ true
      → ends_with e b'/' ≡ true
  unfolding ends_with
  ends_with-fold [] [] slash same h = h
  ends_with-fold [] (y ∷ s) slash same h = cc
  ends_with-fold (x ∷ e) [] slash same h = cc
  ends_with-fold (x ∷ []) (y ∷ []) slash same h =
      let last : y ≡ b'/' = (==_iff y b'/').0 h in
      (==_iff x b'/').1 (slash x (ap (head_or 0) same ∙ ap fold last))
  ends_with-fold (x ∷ []) (y ∷ z ∷ s) slash same h = cc
  ends_with-fold (x ∷ w ∷ e) (y ∷ []) slash same h = cc
  ends_with-fold (x ∷ w ∷ e) (y ∷ z ∷ s) slash same h =
      ends_with-fold (w ∷ e) (z ∷ s) slash (ap tail_of same) h

  covers→Reaches :
      (e s p : Codes) → KeepsSlash → covers lower fold e s ≡ true → Holds s p → Reaches e p
  unfolding covers
  covers→Reaches e s p slash c h = elim (Bool-cases (text_eq (map fold e) (map fold s))) [
    | inl f ↦
        let same = text_eq→eq (map fold e) (map fold s) f in
        elim h [
          | inl here ↦ inl (same ∙ ap (map fold) here)
          | inr (dir, below) ↦
              inr (ends_with-fold e s slash same dir, inl (rw same (has_prefix-map fold p s below)))
        ]
    | inr f ↦
        let dir : ends_with e b'/' ≡ true = ground arith in
        let below : has_prefix (map lower s) (map lower e) ≡ true = ground arith in
        elim h [
          | inl here ↦ inr (dir, inr (rw (← here) below))
          | inr (_, under) ↦
              let inner = has_prefix-map lower p s under in
              inr
                (dir, inr (has_prefix_trans (map lower p) (map lower s) (map lower e) inner below))
        ]
  ]

  -- What Normalize returns for a writer: the whole workspace, or scopes that inputs give, of which
  -- one reaches every path in the scope of an input.
  abbrev pub IsNormal : List Codes → List Codes → Type 0
  IsNormal inputs out =
      (out ≡ workspace ∷ [])
      ⊎ (All (IsGiven inputs) out
          × All (λ raw. (s : Codes) × (check_scope raw ≡ path s) × IsCovered out s) inputs)

  -- Where no other character folds to the slash, Normalize of a writer's inputs returns the marker of
  -- the whole workspace alone, or scopes that its inputs give, of which for each input one reaches
  -- every path in its scope: the same path, or one below it where it ends in a slash, letters
  -- compared without case.
  pub normalize-Normal :
      (inputs out : List Codes)
      → KeepsSlash
      → normalize lower fold inputs true ≡ normal out
      → IsNormal inputs out
  normalize-Normal inputs out slash h = elim (normalize-HasNormal lower fold inputs out h) [
    | inl wide ↦ inl wide
    | inr (given, there) ↦ inr (
      given,
      All_of_Mem (λ raw. (s : Codes) × (check_scope raw ≡ path s) × IsCovered out s) inputs
          (λ raw m.
            let (s, k, (e, kept, c)) =
              All-Mem (λ raw. (s : Codes) × (check_scope raw ≡ path s) × HasCover lower fold out s)
                inputs there m in
            (s, k, (e, kept, λ p held. covers→Reaches e s p slash c held))),
    )
  ]
