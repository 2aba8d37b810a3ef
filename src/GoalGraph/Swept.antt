-- ===== src/GoalGraph/Swept.antt =====
-- internal/goalgraph/graph.go, Recover: what it leaves of the keys of nodes and of the attempts.
use collomia.Common.{
  ℕ, Bool, true, List, [], ◌∷◌, Option, none, some, if◌then◌else◌, ◌≡◌, refl, sym, ◌∙◌, ap, inl,
  inr, arith, Bool-cases, if_elim, subst,
}
use collomia.Common.Int.{ℤ, int_eq, int_eq→eq}
use collomia.Common.Text.{Codes, text_eq}
use collomia.GoalGraph.Data.{Node, Attempt, Failure, runs}
use collomia.GoalGraph.Slots.{find, write, find-Mem}
use collomia.GoalGraph.Results.{pending_is}
use collomia.GoalGraph.Propose.{with_id, release_node}
use collomia.GoalGraph.Operator.{ambiguous}
use collomia.GoalGraph.Recover.{
  interrupt, interrupted_failure, interrupted_state, add_failure, recover_node, recover_attempt,
  recover_attempts,
}
use collomia.GoalGraph.Lane.Same.{Same}

-- Nodes with the same identities and attempts, in order.
abbrev pub SameKeys : List Node → List Node → Type 0
SameKeys [] [] = Unit
SameKeys (m ∷ ms) (n ∷ ns) = (m.id ≡ n.id) × (m.attempt_ids ≡ n.attempt_ids) × SameKeys ms ns
SameKeys _ _ = ⊥

pub SameKeys-refl : (ns : List Node) → SameKeys ns ns
SameKeys-refl [] = tt
SameKeys-refl (n ∷ ns) = (refl, refl, SameKeys-refl ns)

pub SameKeys-trans : (ls ms ns : List Node) → SameKeys ls ms → SameKeys ms ns → SameKeys ls ns
SameKeys-trans [] [] ns h k = k
SameKeys-trans [] (m ∷ ms) ns h k = elim h [ ]
SameKeys-trans (l ∷ ls) [] ns h k = elim h [ ]
SameKeys-trans (l ∷ ls) (m ∷ ms) [] h k = k
SameKeys-trans (l ∷ ls) (m ∷ ms) (n ∷ ns) h k =
    (h.0 ∙ k.0, h.1 ∙ k.1, SameKeys-trans ls ms ns h.2 k.2)

pub Same→SameKeys : (ms ns : List Node) → Same ms ns → SameKeys ms ns
Same→SameKeys [] [] s = tt
Same→SameKeys [] (n ∷ ns) s = s
Same→SameKeys (m ∷ ms) [] s = s
Same→SameKeys (m ∷ ms) (n ∷ ns) s = (s.0.id, s.0.attempt_ids, Same→SameKeys ms ns s.1)

SameKeys-write :
    (p : Node → Bool) {n : Node} (m : Node) (ns : List Node)
    → find p ns ≡ some n
    → m.id ≡ n.id
    → m.attempt_ids ≡ n.attempt_ids
    → SameKeys (write p m ns) ns
unfolding find write
SameKeys-write p m [] at i k = tt
SameKeys-write p {n} m (x ∷ ns) at i k = elim (Bool-cases (p x)) [
  | inl hit ↦
      let e : n ≡ x = ground arith in
      rw hit
        (i ∙ ap (λ (y : Node). y.id) e, k ∙ ap (λ (y : Node). y.attempt_ids) e, SameKeys-refl ns)
  | inr miss ↦
      let later : find p ns ≡ some n = ground arith in
      rw miss (refl, refl, SameKeys-write p m ns later i k)
]

-- A lookup by id in one list finds the same attempts in the other.
pub SameKeys-find :
    (i : ℤ) (ms ns : List Node) {n : Node}
    → SameKeys ms ns
    → find (with_id i) ns ≡ some n
    → (m : Node) × (find (with_id i) ms ≡ some m) × (m.attempt_ids ≡ n.attempt_ids)
unfolding find
SameKeys-find i [] [] s at = cc
SameKeys-find i [] (x ∷ ns) s at = elim s [ ]
SameKeys-find i (m ∷ ms) [] s at = elim s [ ]
SameKeys-find i (m ∷ ms) (x ∷ ns) {n} s at =
    let same : with_id i m ≡ with_id i x = ap (λ j. int_eq j i) s.0 in
    elim (Bool-cases (with_id i x)) [
      | inl hit ↦
          let e : x ≡ n = ground arith in
          rw (same, hit) (m, refl, s.1 ∙ ap (λ (y : Node). y.attempt_ids) e)
      | inr miss ↦
          let later : find (with_id i) ns ≡ some n = ground arith in
          rw (same, miss) (SameKeys-find i ms ns s.2 later)
    ]

-- A node found by an id is found by its own.
find-own_id :
    (i : ℤ) (ns : List Node) {n : Node}
    → find (with_id i) ns ≡ some n
    → find (with_id n.id) ns ≡ some n
find-own_id i ns {n} at =
    let e : n.id ≡ i = int_eq→eq n.id i (find-Mem (with_id i) ns at).1 in
    subst (λ (j : ℤ). find (with_id j) ns ≡ some n) (sym e) at

module _ (bound updated now : ℕ) where
  recover_node-SameKeys :
      (f : Option Failure) (i : ℤ) (ns : List Node) (o : Option Node)
      → find (with_id i) ns ≡ o
      → SameKeys (recover_node bound f o ns) ns
  recover_node-SameKeys f i ns none at = SameKeys-refl ns
  recover_node-SameKeys f i ns (some n) at =
      SameKeys-write (with_id n.id) (release_node (interrupted_state bound f n) n) ns
        (find-own_id i ns at) refl refl

  pub recover_attempts-SameKeys :
      (xs : List Attempt) (ns : List Node)
      → SameKeys (recover_attempts bound updated now xs ns).1 ns
  unfolding recover_attempts
  recover_attempts-SameKeys [] ns = SameKeys-refl ns
  recover_attempts-SameKeys (x ∷ xs) ns =
      let n = find (with_id x.node_id) ns in
      let f = interrupted_failure now n x in
      let ms = if runs x then recover_node bound f n ns else ns in
      SameKeys-trans _ ms ns (recover_attempts-SameKeys xs ms) (
        if_elim (λ ks. SameKeys ks ns) (runs x) (λ e. recover_node-SameKeys f x.node_id ns n refl)
          (λ e. SameKeys-refl ns))

  -- What recovery makes of a running attempt with an action that must not be repeated.
  kept_ambiguous :
      (f : Option Failure) (n : Option Node) (a : Attempt)
      → pending_is (λ act. act.non_replayable) a.pending_action ≡ true
      → ambiguous (add_failure f (interrupt updated now n a)) ≡ true
  kept_ambiguous none n a h = rw h refl
  kept_ambiguous (some f) n a h = rw h refl

  -- An attempt after the loop.
  abbrev swept : Option Node → Attempt → Attempt
  swept n x = if runs x then recover_attempt updated now n x else x

  add_failure-id : (f : Option Failure) (x : Attempt) → (add_failure f x).id ≡ x.id
  add_failure-id none x = refl
  add_failure-id (some f) x = refl

  swept-id : (n : Option Node) (x : Attempt) → (swept n x).id ≡ x.id
  swept-id n x =
      if_elim (λ (y : Attempt). y.id ≡ x.id) (runs x)
        (λ e. add_failure-id (interrupted_failure now n x) (interrupt updated now n x)) (λ e. refl)

  swept-ambiguous :
      (n : Option Node) (x : Attempt)
      → pending_is (λ act. act.non_replayable) x.pending_action ≡ true
      → ambiguous (swept n x) ≡ true
  swept-ambiguous n x h =
      if_elim (λ (y : Attempt). ambiguous y ≡ true) (runs x)
        (λ e. kept_ambiguous (interrupted_failure now n x) n x h) (λ e. rw h refl)

  pub recover_attempts-ambiguous :
      (i : Codes) (xs : List Attempt) (ns : List Node) {a : Attempt}
      → find (λ x. text_eq x.id i) xs ≡ some a
      → pending_is (λ act. act.non_replayable) a.pending_action ≡ true
      → (b : Attempt) × (find (λ x. text_eq x.id i) (recover_attempts bound updated now xs ns).0
          ≡ some b)
        × (ambiguous b ≡ true)
  unfolding recover_attempts find
  recover_attempts-ambiguous i [] ns at h = cc
  recover_attempts-ambiguous i (x ∷ xs) ns {a} at h =
      let n = find (with_id x.node_id) ns in
      let same : text_eq (swept n x).id i ≡ text_eq x.id i =
        ap (λ (j : Codes). text_eq j i) (swept-id n x) in
      elim (Bool-cases (text_eq x.id i)) [
        | inl hit ↦
            let e : a ≡ x = ground arith in
            let risky =
              subst
                (λ (y : Attempt). pending_is (λ act. act.non_replayable) y.pending_action ≡ true) e
                h in
            (swept n x, rw (same, hit) refl, swept-ambiguous n x risky)
        | inr miss ↦
            let later : find (λ y. text_eq y.id i) xs ≡ some a = ground arith in
            rw (same, miss) (recover_attempts-ambiguous i xs _ later h)
      ]
