-- ===== src/GoalGraph/Record/Prune.antt =====
-- internal/goalgraph/graph.go, pruneAttemptEvidenceLocked: the evidence that an attempt keeps.
use collomia.Common.{
  ℕ, zero, suc, ◌+◌, ◌-◌, ◌≤◌, Bool, true, false, not, List, [], ◌∷◌, any, keep, count, length, leb,
  Option, none, some, ◌≡◌, refl, sym, ap, arith, Bool-cases, inl, inr, All, All-Mem, All_of_Mem,
  any→Mem, Mem→any, if_elim, leb→le, subst,
}
use collomia.Common.Text.{Codes, text_eq, text_eq→eq, text_eq_refl}
use collomia.GoalGraph.Data.{Attempt, Evidence, Graph}
use collomia.GoalGraph.Slots.{find}
use collomia.GoalGraph.Record.{
  max_attempt_tool_evidence, is_tool_result, holds_of, verifies, evidence_by,
  has_fresh_verification, prunable, first_ids, has_id, prune_attempt_evidence,
}

module _ (p : Codes → Bool) where
  first_ids-length : (n : ℕ) (ids : List Codes) → n ≤ count p ids → length (first_ids p n ids) ≡ n
  unfolding first_ids
  first_ids-length zero ids h = refl
  first_ids-length (suc n) [] h = absurd (omega arith)
  first_ids-length (suc n) (i ∷ ids) h =
      ground (arith, first_ids-length n ids, first_ids-length (suc n) ids)

  first_ids-All : (n : ℕ) (ids : List Codes) → All (λ i. p i ≡ true) (first_ids p n ids)
  unfolding first_ids
  first_ids-All zero ids = tt
  first_ids-All (suc n) [] = tt
  first_ids-All (suc n) (i ∷ ids) = elim (Bool-cases (p i)) [
    | inl e ↦ rw e (e, first_ids-All n ids)
    | inr e ↦ rw e (first_ids-All (suc n) ids)
  ]

  count-keep : (k : Codes → Bool) (ids : List Codes) → count p (keep k ids) ≤ count p ids
  count-keep k [] = omega arith
  count-keep k (i ∷ ids) = ground (arith, count-keep k ids)

  -- The ids that are dropped are counted no more.
  count-dropped :
      (drop : List Codes) (n : ℕ) (ids : List Codes)
      → All (λ i. has_id drop i ≡ true) (first_ids p n ids)
      → count p (keep (λ i. not (has_id drop i)) ids) + length (first_ids p n ids) ≤ count p ids
  unfolding first_ids
  count-dropped drop zero ids h = ground (arith, count-keep (λ i. not (has_id drop i)) ids)
  count-dropped drop (suc n) [] h = omega arith
  count-dropped drop (suc n) (i ∷ ids) h = elim (Bool-cases (p i)) [
    | inl e ↦
        let taken : first_ids p (suc n) (i ∷ ids) ≡ i ∷ first_ids p n ids = rw e refl in
        let h' = subst (λ is. All (λ j. has_id drop j ≡ true) is) taken h in
        let later = count-dropped drop n ids h'.1 in ground (arith, h'.0)
    | inr e ↦
        let passed : first_ids p (suc n) (i ∷ ids) ≡ first_ids p (suc n) ids = rw e refl in
        let h' = subst (λ is. All (λ j. has_id drop j ≡ true) is) passed h in
        let later = count-dropped drop (suc n) ids h' in ground arith
  ]

any-keep :
    (f f' k : Codes → Bool) (ids : List Codes)
    → ((i : Codes) → k i ≡ true → f' i ≡ f i)
    → ((i : Codes) → k i ≡ false → f i ≡ false)
    → any f' (keep k ids) ≡ any f ids
any-keep f f' k [] same off = refl
any-keep f f' k (i ∷ ids) same off = ground (arith, any-keep f f' k ids same off, same i, off i)

count-keep_same :
    (p q k : Codes → Bool) (ids : List Codes)
    → ((i : Codes) → k i ≡ true → q i ≡ p i)
    → count q (keep k ids) ≡ count p (keep k ids)
count-keep_same p q k [] same = refl
count-keep_same p q k (i ∷ ids) same = ground (arith, count-keep_same p q k ids same, same i)

-- The evidence with an id that is not dropped is still there.
find-kept :
    (drop : List Codes) (i : Codes) (es : List Evidence)
    → has_id drop i ≡ false
    → find (λ e. text_eq e.id i) (keep (λ e. not (has_id drop e.id)) es)
      ≡ find (λ e. text_eq e.id i) es
unfolding find
find-kept drop i [] h = refl
find-kept drop i (e ∷ es) h = elim (Bool-cases (text_eq e.id i)) [
  | inl hit ↦
      let kept : has_id drop e.id ≡ false =
        subst (λ (j : Codes). has_id drop j ≡ false) (sym (text_eq→eq e.id i hit)) h in
      rw (kept, hit) refl
  | inr miss ↦ elim (Bool-cases (has_id drop e.id)) [
    | inl gone ↦ rw (gone, miss) (find-kept drop i es h)
    | inr kept ↦ rw (kept, miss) (find-kept drop i es h)
  ]
]

has_id_self : (ids : List Codes) → All (λ i. has_id ids i ≡ true) ids
unfolding has_id
has_id_self ids = All_of_Mem _ ids (λ i m. Mem→any (text_eq i) m (text_eq_refl i))

module _ (g : Graph) (drop : List Codes) where
  -- The graph without the evidence that is dropped.
  abbrev lean : Graph
  lean = record g { evidence = keep (λ e. not (has_id drop e.id)) g.evidence }

  evidence_by-kept : (i : Codes) → not (has_id drop i) ≡ true → evidence_by lean i ≡ evidence_by g i
  unfolding evidence_by
  evidence_by-kept i h = find-kept drop i g.evidence (ground arith)

  prunable-kept : (i : Codes) → not (has_id drop i) ≡ true → prunable lean i ≡ prunable g i
  unfolding prunable
  prunable-kept i h = ap (holds_of (λ e. is_tool_result e.kind)) (evidence_by-kept i h)

-- A tool result is no verification.
verification_stays :
    (generation : ℕ) (token : Codes) (o : Option Evidence)
    → holds_of (λ e. is_tool_result e.kind) o ≡ true
    → holds_of (verifies generation token) o ≡ false
verification_stays generation token none h = refl
verification_stays generation token (some e) h = ground arith

-- An id that is dropped names a tool result.
dropped-prunable :
    (g : Graph) (n : ℕ) (ids : List Codes) (i : Codes)
    → not (has_id (first_ids (prunable g) n ids) i) ≡ false
    → prunable g i ≡ true
unfolding has_id
dropped-prunable g n ids i h =
    let (j, m, same) = any→Mem (text_eq i) (first_ids (prunable g) n ids) (ground arith) in
    subst (λ (k : Codes). prunable g k ≡ true) (sym (text_eq→eq i j same))
      (All-Mem (λ k. prunable g k ≡ true) _ (first_ids-All (prunable g) n ids) m)

at_most_40 : (c k l f : ℕ) → c ≡ k → k + l ≤ f → l ≡ f - max_attempt_tool_evidence → c ≤ 40
at_most_40 c k l f e h d = omega arith

module _ (g : Graph) (ids : List Codes) where
  abbrev oldest : List Codes
  oldest = first_ids (prunable g) (count (prunable g) ids - max_attempt_tool_evidence) ids

  abbrev kept : Codes → Bool
  kept i = not (has_id oldest i)

  kept-bounded : count (prunable (lean g oldest)) (keep kept ids) ≤ max_attempt_tool_evidence
  kept-bounded =
      at_most_40 _ _ _ _
        (count-keep_same (prunable g) (prunable (lean g oldest)) kept ids (prunable-kept g oldest))
        (count-dropped (prunable g) oldest _ ids (has_id_self oldest))
        (first_ids-length (prunable g) _ ids (omega arith))

  kept-verified :
      (generation : ℕ) (token : Codes)
      → any
          (λ i. holds_of (verifies generation token) (evidence_by (lean g oldest) i))
          (keep kept ids)
        ≡ any (λ i. holds_of (verifies generation token) (evidence_by g i)) ids
  unfolding prunable
  kept-verified generation token =
      let check = verifies generation token in
      any-keep (λ i. holds_of check (evidence_by g i))
        (λ i. holds_of check (evidence_by (lean g oldest) i)) kept ids
        (λ i h. ap (holds_of check) (evidence_by-kept g oldest i h))
        (λ i h.
          verification_stays generation token (evidence_by g i) (dropped-prunable g _ ids i h))

-- What pruning leaves of an attempt and its evidence.
pub record IsPruned (g : Graph) (a : Attempt) (h : Graph) (b : Attempt) : Type 0 where
  pub bounded : count (prunable h) b.evidence_ids ≤ max_attempt_tool_evidence
  pub verified :
      (token : Codes) → has_fresh_verification h b token ≡ has_fresh_verification g a token

abbrev pub IsPrunedPair : Graph → Attempt → Graph × Attempt → Type 0
IsPrunedPair g a r = IsPruned g a r.0 r.1

-- After pruning, an attempt holds at most 40 ordinary tool results, and it has a fresh verification
-- of a workspace exactly if it had one before.
pub prune_attempt_evidence-IsPruned :
    (g : Graph) (a : Attempt) → IsPrunedPair g a (prune_attempt_evidence g a)
unfolding prune_attempt_evidence has_fresh_verification
prune_attempt_evidence-IsPruned g a =
    if_elim (IsPrunedPair g a) (leb (count (prunable g) a.evidence_ids) max_attempt_tool_evidence)
      (λ e. record { bounded = leb→le _ _ e; verified = λ token. refl })
      (λ e. record {
        bounded = kept-bounded g a.evidence_ids;
        verified = kept-verified g a.evidence_ids a.mutation_generation;
      })
