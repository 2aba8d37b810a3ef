-- ===== src/DiffModel/Restore/Returns.antt =====
-- internal/diffmodel/diff.go, RestoreTo on files that only the agent has changed.
use collomia.Common.{
  ℕ, ◌+◌, true, false, not, ◌&&◌, List, [], ◌∷◌, Option, none, some, ◌≡◌, refl, sym, subst, ◌∙◌,
  All, if_elim, arith,
}
use collomia.Common.Int.{pos}
use collomia.Common.Text.{Codes}
use collomia.DiffModel.Data.{File, Disk, Tracker, TrackerError, Io}
use collomia.DiffModel.Checkpoint.{persist, restore_guard, gathered, state_of}
use collomia.DiffModel.Plan.{Reversal, plan_reversals, earlier, later}
use collomia.DiffModel.Plan.Spans.{
  Follows, reversal_at, Unique, Unique-plan, Tells, Spans, Spans-plan,
}
use collomia.DiffModel.Restore.{
  verify, Applied, apply_plan, mark_pending, settled, conclude, carry_out, restore_plan, Restored,
  restore_to,
}
use collomia.DiffModel.Restore.Writes.{
  IsWilling, IsRestorable, Held, Left, look_all-agrees, apply_plan-Left,
}

-- The files are those before the snapshots, and the tracker stands at the turn.
pub record IsReturned (before : Disk) (turn : ℕ) (r : Restored) : Type 0 where
  pub succeeds : r.failure ≡ none
  pub files : (p : Codes) → r.disk p ≡ before p
  pub stands : r.tracker.completed_turns ≡ turn
  pub settles : r.tracker.checkpoint_pending ≡ false

module _ (io : Io) (willing : IsWilling io) where
  -- A save that is answered, and leaves the turn and the mark.
  abbrev pub IsSaved : Tracker → Tracker × Option TrackerError → Type 0
  IsSaved t r =
      (r.1 ≡ none)
      × (r.0.checkpoint_error ≡ false)
      × (r.0.completed_turns ≡ t.completed_turns)
      × (r.0.checkpoint_pending ≡ t.checkpoint_pending)

  pub persist-IsSaved : (t : Tracker) → t.checkpoint_error ≡ false → IsSaved t (persist io t)
  unfolding persist
  persist-IsSaved t e =
      if_elim (IsSaved t) (not t.saver) (λ s. (refl, e, refl, refl))
        (λ s.
          if_elim (IsSaved t) t.checkpoint_error (λ x. let gone : true ≡ false = sym x ∙ e in cc)
            (λ x.
              if_elim (IsSaved t)
                (io.fits (state_of t (gathered io t)) && io.saves (state_of t (gathered io t)))
                (λ y. (refl, e, refl, refl))
                (λ y.
                  let gone : true ≡ false = sym (willing.saves (state_of t (gathered io t))) ∙ y in
                  cc)))

  pub mark_pending-answered :
      (t : Tracker)
      → t.checkpoint_error ≡ false
      → ((mark_pending io t).1 ≡ none) × ((mark_pending io t).0.checkpoint_error ≡ false)
  unfolding mark_pending
  mark_pending-answered t e =
      let r = persist-IsSaved (record t { checkpoint_pending = true }) e in
      if_elim {A = Tracker × Option TrackerError}
        (λ m. (m.1 ≡ none) × (m.0.checkpoint_error ≡ false)) t.saver (λ s. (r.0, r.1))
        (λ s. (refl, e))

  Left-Tells :
      (before d : Disk) (p : Codes) (f : Option File) (o : Option Reversal)
      → Left d p f o
      → Tells before d p o
      → f ≡ before p
  Left-Tells before d p f none left tells = left ∙ sym tells
  Left-Tells before d p f (some r) left tells = left ∙ sym tells.0

  Spans→Held : (before d : Disk) (plan : List Reversal) → Spans before d plan → Held d plan
  Spans→Held before d plan spans p r h = (subst (Tells before d p) h (spans p)).1

  conclude-IsReturned :
      (turn : ℕ) (before : Disk) (t : Tracker) (a : Applied) (e : Option TrackerError)
      → e ≡ none
      → t.checkpoint_error ≡ false
      → ((p : Codes) → a.disk p ≡ before p)
      → IsReturned before turn (conclude io turn t a e)
  unfolding persist earlier
  conclude-IsReturned turn before t a (some e) h k files = cc
  conclude-IsReturned turn before t a none h k files =
      let (answer, clean, at_turn, calm) = persist-IsSaved (settled turn t) k in
      record { succeeds = answer; files = files; stands = at_turn; settles = calm }

  carry_out-IsReturned :
      (turn : ℕ) (plan : List Reversal) (before d : Disk) (m : Tracker × Option TrackerError)
      → m.1 ≡ none
      → m.0.checkpoint_error ≡ false
      → (apply_plan io plan d).failure ≡ none
      → ((p : Codes) → (apply_plan io plan d).disk p ≡ before p)
      → IsReturned before turn (carry_out io turn plan d m)
  unfolding persist earlier apply_plan
  carry_out-IsReturned turn plan before d (t, some e) h k done files = cc
  carry_out-IsReturned turn plan before d (t, none) h k done files =
      conclude-IsReturned turn before t (apply_plan io plan d) _ done k files

  restore_plan-IsReturned :
      (turn : ℕ) (plan : List Reversal) (before d : Disk) (t : Tracker)
      → Spans before d plan
      → Unique plan
      → All (IsRestorable io) plan
      → t.checkpoint_error ≡ false
      → t.checkpoint_pending ≡ false
      → IsReturned before turn (restore_plan io turn plan d t)
  unfolding verify mark_pending apply_plan persist earlier reversal_at
  restore_plan-IsReturned turn [] before d t spans u ok e calm = record {
    succeeds = refl;
    files = λ p. Left-Tells before d p (d p) none refl (spans p);
    stands = refl;
    settles = calm;
  }
  restore_plan-IsReturned turn (r ∷ rs) before d t spans u ok e calm =
      let held = Spans→Held before d (r ∷ rs) spans in
      let (answer, clean) = mark_pending-answered t e in
      let (done, left) = apply_plan-Left io willing (r ∷ rs) d u held ok in
      rw (look_all-agrees io willing d (r ∷ rs) u held) (
        carry_out-IsReturned turn (r ∷ rs) before d (mark_pending io t) answer clean done
          (λ p. Left-Tells before d p _ (reversal_at p (r ∷ rs)) (left p) (spans p)))

  pub restore_guard-clear :
      (first : ℕ) (t : Tracker)
      → restore_guard first t ≡ none
      → (t.checkpoint_error ≡ false) × (t.checkpoint_pending ≡ false)
  unfolding restore_guard
  restore_guard-clear first t h = ground arith

  -- When the files have only changed as the snapshots after a turn tell, and the machine does what
  -- it is asked, a restore to the turn that the guard allows and whose plan is restorable succeeds.
  -- It leaves every file as it was before those snapshots, and the tracker at that turn with no
  -- restore pending.
  pub restore_to-IsReturned :
      (turn : ℕ) (before d : Disk) (t : Tracker)
      → Follows before (later turn t.history) d
      → All (IsRestorable io) (plan_reversals turn t)
      → restore_guard (turn + 1) t ≡ none
      → IsReturned before turn (restore_to io (pos turn) d t)
  unfolding restore_to plan_reversals reversal_at
  restore_to-IsReturned turn before d t follows ok guard =
      let (e, calm) = restore_guard-clear (turn + 1) t guard in
      rw guard (
        restore_plan-IsReturned turn (plan_reversals turn t) before d t
          (Spans-plan before (later turn t.history) [] before d (λ p. refl) follows)
          (Unique-plan [] (later turn t.history) tt) ok e calm)
