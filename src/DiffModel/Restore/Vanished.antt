-- ===== src/DiffModel/Restore/Vanished.antt =====
-- internal/diffmodel/diff.go, RestoreTo: a file that was made and deleted again after the turn.
use collomia.Common.{
  ℕ, ◌+◌, not, List, [], ◌∷◌, Option, none, some, ◌≡◌, ◌≢◌, refl, sym, ap, subst, ◌∙◌, Bool-cases,
  Option-cases, if_elim, inl, inr, arith,
}
use collomia.Common.Int.{pos}
use collomia.Common.Text.{Codes, text_eq, text_eq→eq}
use collomia.DiffModel.Data.{File, Disk, Tracker, TrackerError, Io}
use collomia.DiffModel.Checkpoint.{persist, restore_guard}
use collomia.DiffModel.Plan.{Reversal, plan_reversals, earlier, later}
use collomia.DiffModel.Plan.Spans.{reversal_at, Unique, Unique-plan}
use collomia.DiffModel.Restore.{
  agrees, look, verify, rewrite_file, Applied, apply_plan, mark_pending, conclude, carry_out,
  restore_checked, restore_plan, restore_guarded, restore_to,
}
use collomia.DiffModel.Restore.Guarded.{Agrees, verify-Agrees, Elsewhere, rewrite_file-Elsewhere}

module _ (io : Io) where
  Agrees-at :
      (d : Disk) (p : Codes) (r : Reversal) (plan : List Reversal)
      → Agrees io d plan
      → reversal_at p plan ≡ some r
      → (look io d r ≡ agrees) × (p ≡ r.path)
  unfolding reversal_at
  Agrees-at d p r [] ok h = cc
  Agrees-at d p r (q ∷ qs) (a, ok) h = elim (Bool-cases (text_eq p q.path)) [
    | inl e ↦
        let same : q ≡ r = ground arith in (rw (← same) a, rw (← same) (text_eq→eq p q.path e))
    | inr e ↦ Agrees-at d p r qs ok (ground arith)
  ]

  look-present :
      (d : Disk) (r : Reversal) (f : File)
      → d r.path ≡ some f
      → r.expected ≡ none
      → look io d r ≢ agrees
  unfolding look
  look-present d r f g e = rw e (
      rw g (
        if_elim (λ l. l ≢ agrees) (not (io.opens r.path)) (λ a h. cc)
          (λ a. if_elim (λ l. l ≢ agrees) (not (io.reads r.path)) (λ b h. cc) (λ b h. cc))))

  -- A file that agrees with nothing expected does not exist.
  look-absent :
      (d : Disk) (r : Reversal) → look io d r ≡ agrees → r.expected ≡ none → d r.path ≡ none
  look-absent d r h e = elim (Option-cases (d r.path)) [
    | inl g ↦ g
    | inr (f, g) ↦ absurd (look-present d r f g e h)
  ]

  rewrite_file-absent :
      (d : Disk) (q : Codes) (target : Option Codes) (m : ℕ)
      → target ≡ none
      → d q ≡ none
      → rewrite_file io q target m d ≡ none
  unfolding rewrite_file
  rewrite_file-absent d q none m t e = rw (e, rewrite_file) refl
  rewrite_file-absent d q (some text) m t e = cc

  -- To remove a file that does not exist fails.
  apply_plan-absent :
      (plan : List Reversal) (d : Disk) (p : Codes) (r : Reversal)
      → Unique plan
      → reversal_at p plan ≡ some r
      → r.target ≡ none
      → d p ≡ none
      → (apply_plan io plan d).failure ≢ none
  unfolding apply_plan reversal_at
  apply_plan-absent [] d p r u h t e = cc
  apply_plan-absent (q ∷ qs) d p r u h t e =
      let far = rewrite_file-Elsewhere io d q.path q.target q.target_mode in
      elim (Option-cases (rewrite_file io q.path q.target q.target_mode d)) [
        | inl stop ↦ rw (stop, apply_plan) (λ k. cc)
        | inr (d', go) ↦ elim (Bool-cases (text_eq p q.path)) [
          | inl same ↦
              let at_head : q ≡ r = ground arith in
              let stop =
                rewrite_file-absent d q.path q.target q.target_mode (ap (λ x. x.target) at_head ∙ t)
                  (ap d (sym (text_eq→eq p q.path same)) ∙ e) in
              rw (stop, apply_plan) (λ k. cc)
          | inr diff ↦
              rw (go, apply_plan)
                (apply_plan-absent qs d' p r u.1 (ground arith) t
                  (subst (Elsewhere io d q.path) go far p diff ∙ e))
        ]
      ]

  conclude-fails :
      (turn : ℕ) (t : Tracker) (a : Applied) (e : Option TrackerError)
      → e ≢ none
      → (conclude io turn t a e).failure ≢ none
  unfolding persist earlier
  conclude-fails turn t a none h = absurd (h refl)
  conclude-fails turn t a (some e) h = λ k. cc

  carry_out-fails :
      (turn : ℕ) (plan : List Reversal) (d : Disk) (m : Tracker × Option TrackerError)
      → (apply_plan io plan d).failure ≢ none
      → (carry_out io turn plan d m).failure ≢ none
  unfolding persist earlier apply_plan
  carry_out-fails turn plan d (t, some e) h = λ k. cc
  carry_out-fails turn plan d (t, none) h = conclude-fails turn t (apply_plan io plan d) _ h

  restore_checked-fails :
      (turn : ℕ) (plan : List Reversal) (d : Disk) (t : Tracker) (v : Option TrackerError)
      → (v ≡ none → (apply_plan io plan d).failure ≢ none)
      → (restore_checked io turn plan d t v).failure ≢ none
  unfolding persist earlier apply_plan mark_pending
  restore_checked-fails turn plan d t (some e) h = λ k. cc
  restore_checked-fails turn plan d t none h =
      carry_out-fails turn plan d (mark_pending io t) (h refl)

  restore_plan-fails :
      (turn : ℕ) (plan : List Reversal) (d : Disk) (t : Tracker) (p : Codes) (r : Reversal)
      → Unique plan
      → reversal_at p plan ≡ some r
      → r.target ≡ none
      → r.expected ≡ none
      → (restore_plan io turn plan d t).failure ≢ none
  unfolding persist earlier apply_plan mark_pending verify reversal_at
  restore_plan-fails turn [] d t p r u h a b = cc
  restore_plan-fails turn (q ∷ qs) d t p r u h a b =
      restore_checked-fails turn (q ∷ qs) d t (verify io d (q ∷ qs)) (λ v.
        let (agree, at) = Agrees-at d p r (q ∷ qs) (verify-Agrees io d (q ∷ qs) v) h in
        apply_plan-absent (q ∷ qs) d p r u h a (ap d at ∙ look-absent d r agree b))

  restore_guarded-fails :
      (turn : ℕ) (d : Disk) (t : Tracker) (p : Codes) (r : Reversal) (v : Option TrackerError)
      → reversal_at p (plan_reversals turn t) ≡ some r
      → r.target ≡ none
      → r.expected ≡ none
      → (restore_guarded io turn d t v).failure ≢ none
  unfolding persist earlier apply_plan mark_pending verify plan_reversals
  restore_guarded-fails turn d t p r (some e) h a b = λ k. cc
  restore_guarded-fails turn d t p r none h a b =
      restore_plan-fails turn (plan_reversals turn t) d t p r
        (Unique-plan [] (later turn t.history) tt) h a b

-- A restore whose plan has a file that did not exist before the turn's mutations and does not exist
-- after them never succeeds, whatever the machine answers and whatever the files are.
pub restore_to-vanished :
    (io : Io) (turn : ℕ) (d : Disk) (t : Tracker) (p : Codes) (r : Reversal)
    → reversal_at p (plan_reversals turn t) ≡ some r
    → r.target ≡ none
    → r.expected ≡ none
    → (restore_to io (pos turn) d t).failure ≢ none
unfolding restore_to
restore_to-vanished io turn d t p r h a b =
    restore_guarded-fails io turn d t p r (restore_guard (turn + 1) t) h a b
