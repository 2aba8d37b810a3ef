-- ===== src/GoalGraph/Gate.antt =====
-- internal/goalgraph/graph.go, ProposeCompletion: when the runtime accepts a node.
use mathlib.Core.List.{Memᴰ}
use collomia.Common.{
  ◌<◌, Bool, true, false, not, ◌&&◌, List, [], ◌∷◌, ◌++◌, is_empty, Option, none, some, ◌≡◌, ◌↔◌,
  refl, ◌∙◌, inl, inr, arith, Bool-cases, if_elim, All, ==_iff, ◌≢◌, any→Mem, Mem→any, subst,
}
use collomia.Common.Text.{Codes, text_eq, text_eq→eq, eq→text_eq}
use collomia.GoalGraph.Data.{
  Node, Attempt, Failure, GapKind, EvidenceKind, EvidenceStatus, Evidence, Outcome, Graph, Result,
  ok, err, runs, over,
}
use collomia.GoalGraph.Slots.{find}
use collomia.GoalGraph.Ready.{refresh_ready, reduce_outcome}
use collomia.GoalGraph.Record.{
  holds_of, is_verification, has_passed, verifies, evidence_by, has_fresh_verification,
  unresolved_failures,
}
use collomia.GoalGraph.Start.{Call, saved, drifted}
use collomia.GoalGraph.Tools.{append_failure}
use collomia.GoalGraph.Propose.{
  Decision, DecisionKind, settle_failures, mutation_gaps, completion_gaps, defer_completion,
  accept_kind, accept_outcome, accept, decided, accept_completion, stale_failure, checked, judge,
  node_by, propose_completion,
}

-- Whether a decision accepts the node.
abbrev pub accepting : DecisionKind → Bool
accepting DecisionKind.accepted = true
accepting DecisionKind.done = true
accepting _ = false

abbrev pub accepts : Result Decision → Bool
accepts (ok d) = accepting d.kind
accepts (err e) = false

-- An attempt has evidence that `verifies` passes.
abbrev pub HasFresh : Graph → Attempt → Codes → Type 0
HasFresh g a token =
    (i : Codes) × (e : Evidence) × Memᴰ i a.evidence_ids
    × (evidence_by g i ≡ some e)
    × (verifies a.mutation_generation token e ≡ true)

-- The tests of the runtime, on an attempt that is not checked yet.
pub record Passes (g : Graph) (a : Attempt) (token : Codes) : Type 0 where
  pub same_workspace : drifted g token ≡ false
  pub no_failure : is_empty (unresolved_failures a.failures) ≡ true
  pub worked : 0 < a.tool_successes
  pub known : a.may_have_mutated ≡ true → is_empty token ≡ false
  pub changed :
      a.may_have_mutated ≡ true
      → a.has_workspace_write && text_eq a.base_workspace_token token ≡ false
  pub verified : a.may_have_mutated ≡ true → HasFresh g a token

holds_of-some :
    (p : Evidence → Bool) (o : Option Evidence)
    → holds_of p o ≡ true
    → (e : Evidence) × (o ≡ some e) × (p e ≡ true)
holds_of-some p none h = cc
holds_of-some p (some e) h = (e, refl, h)

fresh-HasFresh :
    (g : Graph) (a : Attempt) (token : Codes)
    → has_fresh_verification g a token ≡ true
    → HasFresh g a token
unfolding has_fresh_verification
fresh-HasFresh g a token h =
    let check = verifies a.mutation_generation token in
    let (i, m, on) = any→Mem (λ i. holds_of check (evidence_by g i)) a.evidence_ids h in
    let (e, at, good) = holds_of-some check (evidence_by g i) on in (i, e, m, at, good)

HasFresh-fresh :
    (g : Graph) (a : Attempt) (token : Codes)
    → HasFresh g a token
    → has_fresh_verification g a token ≡ true
unfolding has_fresh_verification
HasFresh-fresh g a token (i, e, m, at, good) =
    let check = verifies a.mutation_generation token in
    Mem→any (λ j. holds_of check (evidence_by g j)) m (rw at good)

accepts-saved :
    (c : Call) (d : Decision) → accepts (saved c (ok d)) ≡ c.persisted && accepting d.kind
accepts-saved c d = ground arith

settle_failures-accepts :
    (c : Call) (n : Node) (a : Attempt) (g : Graph) → accepts (settle_failures c n a g).1 ≡ false
unfolding settle_failures
settle_failures-accepts c n a g = ground arith

defer_completion-accepts :
    (c : Call) (gaps : List GapKind) (n : Node) (a : Attempt) (g : Graph)
    → accepts (defer_completion c gaps n a g).1 ≡ false
unfolding defer_completion
defer_completion-accepts c gaps n a g = ground arith

accept_kind-accepting : (o : Option Outcome) → accepting (accept_kind o) ≡ true
accept_kind-accepting none = refl
accept_kind-accepting (some Outcome.done) = refl
accept_kind-accepting (some Outcome.blocked) = refl
accept_kind-accepting (some Outcome.cancelled) = refl
accept_kind-accepting (some Outcome.budget_exhausted) = refl
accept_kind-accepting (some Outcome.awaiting_review) = refl
accept_kind-accepting (some Outcome.awaiting_verification) = refl

accept_completion-accepts :
    (c : Call) (summary token : Codes) (n : Node) (a : Attempt) (g : Graph)
    → accepts (accept_completion c summary token n a g).1 ≡ c.persisted
unfolding accept_completion
accept_completion-accepts c summary token n a g =
    let h = reduce_outcome c.now (refresh_ready (accept c summary token n a g)) in
    let good = accept_kind-accepting h.outcome in
    accepts-saved c (decided (accept_kind h.outcome) n.id (accept_outcome h.outcome)) ∙ ground arith

-- The gaps that are empty exactly on an attempt that passes.
completion_gaps-empty :
    (g : Graph) (a : Attempt) (token : Codes)
    → is_empty (completion_gaps g a token) ≡ true
    → (0 < a.tool_successes)
      × (a.may_have_mutated ≡ true
          → (is_empty token ≡ false)
            × (a.has_workspace_write && text_eq a.base_workspace_token token ≡ false)
            × HasFresh g a token)
unfolding completion_gaps mutation_gaps
completion_gaps-empty g a token h =
    let fresh : a.may_have_mutated ≡ true → has_fresh_verification g a token ≡ true =
      λ m. ground arith in
    (ground arith, λ m. (ground arith, ground arith, fresh-HasFresh g a token (fresh m)))

proven-no_gap :
    (g : Graph) (a : Attempt) (token : Codes)
    → Passes g a token
    → is_empty (completion_gaps g a token) ≡ true
unfolding completion_gaps mutation_gaps
proven-no_gap g a token p =
    let fresh : a.may_have_mutated ≡ true → has_fresh_verification g a token ≡ true =
      λ m. HasFresh-fresh g a token (p.verified m) in
    ground (arith, p.known, p.changed, fresh)

unresolved-append :
    (f : Failure) (fs : List Failure)
    → f.resolved ≡ false
    → is_empty (unresolved_failures (fs ++ f ∷ [])) ≡ false
unresolved-append f [] h = ground arith
unresolved-append f (x ∷ fs) h = ground (arith, unresolved-append f fs)

failed_first : (p u v : Bool) → not u ≡ true → false ≡ p && (u && v)
failed_first p u v h = ground arith

failed_second : (p u v : Bool) → not v ≡ true → false ≡ p && (u && v)
failed_second p u v h = ground arith

passed_both : (p u v : Bool) → not u ≡ false → not v ≡ false → p ≡ p && (u && v)
passed_both p u v h k = ground arith

module _ (c : Call) (summary token : Codes) (n : Node) (a : Attempt) (g : Graph) where
  -- The two tests that decide an acceptance, on the attempt as it is checked.
  accepts-judge :
      accepts (judge c summary token n a g).1
      ≡ c.persisted
        && (is_empty (unresolved_failures (checked c token g a).failures)
            && is_empty (completion_gaps g (checked c token g a) token))
  unfolding judge
  accepts-judge =
      let b = checked c token g a in
      let u = is_empty (unresolved_failures b.failures) in
      let v = is_empty (completion_gaps g b token) in
      let P : Graph × Result Decision → Type 0 = λ r. accepts r.1 ≡ c.persisted && (u && v) in
      if_elim P (not u) (λ e. settle_failures-accepts c n b g ∙ failed_first c.persisted u v e)
        (λ e.
          if_elim P (not v)
            (λ f.
              defer_completion-accepts c (completion_gaps g b token) n b g
              ∙ failed_second c.persisted u v f)
            (λ f.
              accept_completion-accepts c summary token n b g ∙ passed_both c.persisted u v e f))

  -- The tests hold exactly on an attempt that passes.
  abbrev Tests : Attempt → Type 0
  Tests x = is_empty (unresolved_failures x.failures) && is_empty (completion_gaps g x token) ≡ true

  tests→Passes : Tests (checked c token g a) → Passes g a token
  tests→Passes h = elim (Bool-cases (drifted g token)) [
    | inl moved ↦
        let open_failure = unresolved-append (stale_failure c) a.failures refl in
        let e : checked c token g a ≡ append_failure (stale_failure c) a = rw moved refl in
        let h' = subst (λ (x : Attempt). Tests x) e h in absurd (ground arith)
    | inr same ↦
        let e : checked c token g a ≡ a = rw same refl in
        let h' = subst (λ (x : Attempt). Tests x) e h in
        let clear : is_empty (unresolved_failures a.failures) ≡ true = ground arith in
        let (worked, m) = completion_gaps-empty g a token (ground arith) in
        record {
          same_workspace = same;
          no_failure = clear;
          worked = worked;
          known = λ e. (m e).0;
          changed = λ e. (m e).1;
          verified = λ e. (m e).2;
        }
  ]

  Passes→tests : Passes g a token → Tests (checked c token g a)
  Passes→tests p = rw (p.same_workspace, p.no_failure, proven-no_gap g a token p) refl

-- An attempt has a verification that passed, made after the last change that is recorded for it and
-- of the workspace as it stands.
abbrev pub IsVerified : Graph → Attempt → Codes → Type 0
IsVerified g a token =
    (i : Codes) × (e : Evidence) × Memᴰ i a.evidence_ids
    × (evidence_by g i ≡ some e)
    × (e.kind ≡ EvidenceKind.verification)
    × (e.status ≡ EvidenceStatus.passed)
    × (e.mutation_generation ≡ a.mutation_generation)
    × (e.workspace_token ≡ token)

-- What an attempt must have to be accepted.
pub record IsProven (g : Graph) (a : Attempt) (token : Codes) : Type 0 where
  pub same_workspace :
      is_empty g.workspace_token ≡ false → is_empty token ≡ false → g.workspace_token ≡ token
  pub no_failure : All (λ f. f.resolved ≡ true) a.failures
  pub worked : 0 < a.tool_successes
  pub known : a.may_have_mutated ≡ true → is_empty token ≡ false
  pub changed :
      a.may_have_mutated ≡ true → a.has_workspace_write ≡ true → a.base_workspace_token ≢ token
  pub verified : a.may_have_mutated ≡ true → IsVerified g a token

is_verification-kind : (k : EvidenceKind) → is_verification k ≡ true → k ≡ EvidenceKind.verification
is_verification-kind EvidenceKind.verification h = refl
is_verification-kind _ h = cc

has_passed-status : (s : EvidenceStatus) → has_passed s ≡ true → s ≡ EvidenceStatus.passed
has_passed-status EvidenceStatus.passed h = refl
has_passed-status _ h = cc

unresolved-All :
    (fs : List Failure)
    → (is_empty (unresolved_failures fs) ≡ true) ↔ All (λ f. f.resolved ≡ true) fs
unresolved-All [] = (λ h. tt, λ h. refl)
unresolved-All (f ∷ fs) =
    let (one, two) = unresolved-All fs in
    elim (Bool-cases f.resolved) [
      | inl e ↦ (λ h. (e, one (ground arith)), λ h. let t = two h.1 in ground arith)
      | inr e ↦ (λ h. absurd (ground arith), λ h. absurd (ground (arith, h.0)))
    ]

HasFresh-IsVerified :
    (g : Graph) (a : Attempt) (token : Codes) → HasFresh g a token ↔ IsVerified g a token
HasFresh-IsVerified g a token = (
  λ p.
      let (i, e, m, at, good) = p in
      (
        i,
        e,
        m,
        at,
        is_verification-kind e.kind (ground arith),
        has_passed-status e.status (ground arith),
        (==_iff e.mutation_generation a.mutation_generation).0 (ground arith),
        text_eq→eq e.workspace_token token (ground arith),
      ),
  λ p.
      let (i, e, m, at, k, s, n, t) = p in
      let same = (==_iff e.mutation_generation a.mutation_generation).1 n in
      let here = eq→text_eq e.workspace_token token t in (i, e, m, at, rw k (rw s (ground arith))),
)

drifted_iff :
    (g : Graph) (token : Codes)
    → (drifted g token ≡ false)
      ↔ (is_empty g.workspace_token ≡ false → is_empty token ≡ false → g.workspace_token ≡ token)
drifted_iff g token = (
  λ h e f. text_eq→eq g.workspace_token token (ground arith),
  λ h. elim (Bool-cases (drifted g token)) [
    | inr e ↦ e
    | inl e ↦
        let same = eq→text_eq g.workspace_token token (h (ground arith) (ground arith)) in
        absurd (ground arith)
  ],
)

Passes-IsProven : (g : Graph) (a : Attempt) (token : Codes) → Passes g a token ↔ IsProven g a token
Passes-IsProven g a token = (
  λ p. record {
    same_workspace = (drifted_iff g token).0 p.same_workspace;
    no_failure = (unresolved-All a.failures).0 p.no_failure;
    worked = p.worked;
    known = p.known;
    changed = λ m w e.
        let same = eq→text_eq a.base_workspace_token token e in
        let moved = p.changed m in absurd (ground arith);
    verified = λ m. (HasFresh-IsVerified g a token).0 (p.verified m);
  },
  λ p. record {
    same_workspace = (drifted_iff g token).1 p.same_workspace;
    no_failure = (unresolved-All a.failures).1 p.no_failure;
    worked = p.worked;
    known = p.known;
    changed = λ m.
        elim (Bool-cases (a.has_workspace_write && text_eq a.base_workspace_token token)) [
          | inr e ↦ e
          | inl e ↦
              absurd (
                p.changed m (ground arith) (text_eq→eq a.base_workspace_token token (ground arith)))
        ];
    verified = λ m. (HasFresh-IsVerified g a token).1 (p.verified m);
  },
)

-- A proposed completion of the running attempt, at a graph with no outcome and with a store that
-- saves it, is accepted exactly if the workspace is the one that the graph has recorded, where both
-- are known, no failure is unresolved, at least one tool has succeeded and, when the attempt may
-- have changed the workspace, the workspace is known, it is not the one that the attempt began with
-- if a write to the workspace is recorded, and a verification in the attempt's evidence has passed
-- since the last change recorded for the attempt, on the workspace as it is.
pub propose_completion-accepts_iff :
    (c : Call) (summary token : Codes) (g : Graph) {a : Attempt} {n : Node}
    → over g ≡ false
    → find runs g.attempts ≡ some a
    → node_by g a.node_id ≡ some n
    → c.persisted ≡ true
    → (accepts (propose_completion c summary token g).1 ≡ true) ↔ IsProven g a token
unfolding propose_completion
propose_completion-accepts_iff c summary token g {a} {n} live at here stored =
    let e = accepts-judge c summary token n a g in
    let (forth, back) = Passes-IsProven g a token in
    rw (live, at, here)
      (
        λ h. forth (tests→Passes c summary token n a g (ground arith)),
        λ p. let t = Passes→tests c summary token n a g (back p) in ground arith,
      )
