-- ===== src/Writescope/Disjoint.antt =====
-- Writers with disjoint scopes: Overlap and Violations of internal/writescope/scope.go together.
use mathlib.Core.List.{Memᴰ}
use collomia.Common.{
  ℕ, true, false, List, [], ◌∷◌, map, any, is_empty, ◌≡◌, ◌≢◌, inl, inr, refl, ap, ◌∙◌, arith,
  Bool-cases, any→Mem,
}
use collomia.Common.Text.{Codes, text_eq, has_prefix, text_eq→eq}
use collomia.Writescope.{
  workspace, to_lower, overlap, in_scope, changed_path, outside_of, violations, is_whole,
  insert_text, sort_texts,
}
use collomia.Writescope.Overlaps.{Addresses, overlap_iff, Mem-not_empty}

insert_text-not_empty : (s : Codes) (ts : List Codes) → insert_text s ts ≢ []
unfolding insert_text
insert_text-not_empty s [] = cc
insert_text-not_empty s (t ∷ ts) = ground arith

sort_texts-empty : (ss : List Codes) → sort_texts ss ≡ [] → ss ≡ []
unfolding sort_texts
sort_texts-empty [] h = refl
sort_texts-empty (s ∷ ss) h = absurd (insert_text-not_empty s (sort_texts ss) h)

outside_of-empty :
    (declared changed : List Codes) {raw : Codes}
    → outside_of declared changed ≡ []
    → Memᴰ raw changed
    → any (λ s. in_scope (changed_path raw) s) declared ≡ true
unfolding outside_of
outside_of-empty declared [] h m = elim m [ ]
outside_of-empty declared (c ∷ cs) h (Memᴰ.head e) = rw e (ground arith)
outside_of-empty declared (c ∷ cs) h (Memᴰ.tail m) = outside_of-empty declared cs (ground arith) m

pub has_prefix-map :
    (f : ℕ → ℕ) (s t : Codes) → has_prefix s t ≡ true → has_prefix (map f s) (map f t) ≡ true
unfolding has_prefix
has_prefix-map f s [] h = refl
has_prefix-map f [] (b ∷ t) h = cc
has_prefix-map f (a ∷ s) (b ∷ t) h = ground (arith, has_prefix-map f s t)

in_scope-Addresses : (lower : ℕ → ℕ) (p s : Codes) → in_scope p s ≡ true → Addresses lower s p
unfolding in_scope
in_scope-Addresses lower p s h = elim (Bool-cases (text_eq s p)) [
  | inl e ↦ inr (inl (ap (to_lower lower) (text_eq→eq s p e)))
  | inr e ↦ inr (inr (ground arith, has_prefix-map lower p s (ground arith)))
]

is_whole→eq : (declared : List Codes) → is_whole declared ≡ true → declared ≡ workspace ∷ []
is_whole→eq [] h = cc
is_whole→eq (s ∷ []) h = ap (λ t. t ∷ []) (text_eq→eq s workspace h)
is_whole→eq (s ∷ t ∷ ss) h = cc

-- A path that a change without violations touched is addressed by a declared scope.
violations-Addresses :
    (lower : ℕ → ℕ) (declared changed : List Codes) {raw : Codes}
    → is_empty declared ≡ false
    → violations declared changed ≡ []
    → Memᴰ raw changed
    → (s : Codes) × Memᴰ s declared × Addresses lower s (changed_path raw)
unfolding violations
violations-Addresses lower declared changed {raw} n h m = elim (Bool-cases (is_whole declared)) [
  | inl w ↦ (workspace, rw (is_whole→eq declared w) (Memᴰ.head refl), inl refl)
  | inr w ↦
      let none_outside : outside_of declared changed ≡ [] =
        sort_texts-empty (outside_of declared changed) (ground (arith, Mem-not_empty m)) in
      let (s, k, q) =
        any→Mem (λ s. in_scope (changed_path raw) s) declared
          (outside_of-empty declared changed none_outside m) in
      (s, k, in_scope-Addresses lower (changed_path raw) s q)
]

Addresses-eq :
    (lower : ℕ → ℕ) (s p q : Codes)
    → map lower p ≡ map lower q
    → Addresses lower s p
    → Addresses lower s q
Addresses-eq lower s p q e (inl h) = inl h
Addresses-eq lower s p q e (inr (inl h)) = inr (inl (h ∙ e))
Addresses-eq lower s p q e (inr (inr (d, h))) = inr (inr (d, rw (← e) h))

-- Two writers with declared scopes that do not overlap, and whose changes have no violations, touch
-- no common path, letters compared without case.
pub violations_disjoint :
    (lower : ℕ → ℕ) (left right left_changed right_changed : List Codes) (p q : Codes)
    → is_empty left ≡ false
    → is_empty right ≡ false
    → overlap lower left right ≡ false
    → violations left left_changed ≡ []
    → violations right right_changed ≡ []
    → Memᴰ p left_changed
    → Memᴰ q right_changed
    → map lower (changed_path p) ≢ map lower (changed_path q)
violations_disjoint lower left right lc rc p q nl nr apart vl vr mp mq e =
    let (a, ma, x) = violations-Addresses lower left lc nl vl mp in
    let (b, mb, y) = violations-Addresses lower right rc nr vr mq in
    let met : overlap lower left right ≡ true = (overlap_iff lower left right).1 (
      changed_path q,
      (a, ma, Addresses-eq lower a (changed_path p) (changed_path q) e x),
      (b, mb, y),
    ) in
    cc
