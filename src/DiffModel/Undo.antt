-- ===== src/DiffModel/Undo.antt =====
-- internal/diffmodel/diff.go, Undo: the last recorded mutation is reverted, where its file still is
-- as the agent left it.
use collomia.Common.{
  false, List, [], ◌∷◌, Option, none, some, ◌≡◌, refl, sym, ap, ◌∙◌, Bool-cases, inl, inr,
}
use collomia.Common.Text.{Codes, text_eq, text_eq→eq, text_eq_refl}
use collomia.DiffModel.Data.{
  File, Disk, Snapshot, Tracker, TrackerError, nothing_to_undo, changed_outside, not_written, Io,
  put,
}
use collomia.DiffModel.Checkpoint.{persist, restore_guard}
use collomia.DiffModel.Plan.{start_of_reversal}
use collomia.DiffModel.Plan.Spans.{file_of}
use collomia.DiffModel.Restore.{
  Look, agrees, differs, fails, look, rewrite_file, mark_pending, Restored, refused,
}
use collomia.DiffModel.Restore.Writes.{IsWilling, IsRestorable, look-agrees, rewrite_file-done}
use collomia.DiffModel.Restore.Returns.{mark_pending-answered, persist-IsSaved, restore_guard-clear}

abbrev pub last_of : List Snapshot → Option Snapshot
last_of [] = none
last_of (s ∷ []) = some s
last_of (s ∷ r ∷ ss) = last_of (r ∷ ss)

abbrev pub all_but_last : List Snapshot → List Snapshot
all_but_last [] = []
all_but_last (s ∷ []) = []
all_but_last (s ∷ r ∷ ss) = s ∷ all_but_last (r ∷ ss)

abbrev shortened : Tracker → Tracker
shortened t = record t { history = all_but_last t.history; checkpoint_pending = false }

abbrev undone : Disk → Codes → Tracker × Option TrackerError → Restored
undone d p (t, e) = record { disk = d; tracker = t; files = p ∷ []; mutations = 1; failure = e }

abbrev pub undo_written : Io → Snapshot → Disk → Tracker → Option Disk → Restored
undo_written io s d t none = refused d t (not_written s.path)
undo_written io s d t (some d') = undone d' s.path (persist io (shortened t))

abbrev pub undo_marked : Io → Snapshot → Disk → Tracker × Option TrackerError → Restored
undo_marked io s d (t, some e) = refused d t e
undo_marked io s d (t, none) =
    undo_written io s d t (rewrite_file io s.path s.before s.before_mode d)

abbrev pub undo_looked : Io → Snapshot → Disk → Tracker → Look → Restored
undo_looked io s d t (fails e) = refused d t e
undo_looked io s d t differs = refused d t (changed_outside s.path)
undo_looked io s d t agrees = undo_marked io s d (mark_pending io t)

abbrev pub undo_guarded : Io → Snapshot → Disk → Tracker → Option TrackerError → Restored
undo_guarded io s d t (some e) = refused d t e
undo_guarded io s d t none = undo_looked io s d t (look io d (start_of_reversal s))

-- Undo on the last snapshot, if there is one. The guard is asked for the turn before its own.
abbrev pub undo_last : Io → Disk → Tracker → Option Snapshot → Restored
undo_last io d t none = refused d t nothing_to_undo
undo_last io d t (some s) = undo_guarded io s d t (restore_guard s.turn t)

unfoldable pub undo : Io → Disk → Tracker → Restored
unfolding persist restore_guard look mark_pending rewrite_file
undo io d t = undo_last io d t (last_of t.history)

-- The files are those before the last mutation, and nothing is pending.
pub record IsUndone (before : Disk) (r : Restored) : Type 0 where
  pub succeeds : r.failure ≡ none
  pub files : (p : Codes) → r.disk p ≡ before p
  pub settles : r.tracker.checkpoint_pending ≡ false

module _ (io : Io) (willing : IsWilling io) where
  put-put :
      (before : Disk) (q p : Codes) (f g : Option File)
      → before q ≡ f
      → put q f (put q g before) p ≡ before p
  unfolding put
  put-put before q p f g h = elim (Bool-cases (text_eq p q)) [
    | inl e ↦ rw e (sym h ∙ ap before (sym (text_eq→eq p q e)))
    | inr e ↦ rw e refl
  ]

  put_here : (d : Disk) (q : Codes) (f : Option File) → put q f d q ≡ f
  unfolding put
  put_here d q f = rw (text_eq_refl q) refl

  undo_marked-IsUndone :
      (before : Disk) (s : Snapshot) (m : Tracker × Option TrackerError)
      → before s.path ≡ file_of s.before s.before_mode
      → IsRestorable io (start_of_reversal s)
      → m.1 ≡ none
      → m.0.checkpoint_error ≡ false
      → IsUndone before (undo_marked io s (put s.path (file_of s.after s.after_mode) before) m)
  unfolding persist rewrite_file
  undo_marked-IsUndone before s (t, some e) h o answer clean = cc
  undo_marked-IsUndone before s (t, none) h o answer clean =
      let done =
        rewrite_file-done io willing (put s.path (file_of s.after s.after_mode) before) s.path
          s.before s.after s.before_mode s.after_mode (put_here before s.path _) o.still_there
          o.mode o.unmasked in
      let (ends, _, _, calm) = persist-IsSaved io willing (shortened t) clean in
      rw done
        (record { succeeds = ends; files = λ p. put-put before s.path p _ _ h; settles = calm })

-- An undo of a mutation that the agent made, on files that have not changed since, succeeds when
-- the machine does what it is asked, the guard allows it and the file can be restored to the letter.
-- Every file is then as it was before the mutation, and no restore is pending.
pub undo-IsUndone :
    (io : Io) (before : Disk) (t : Tracker) (s : Snapshot)
    → IsWilling io
    → last_of t.history ≡ some s
    → before s.path ≡ file_of s.before s.before_mode
    → IsRestorable io (start_of_reversal s)
    → restore_guard s.turn t ≡ none
    → IsUndone before (undo io (put s.path (file_of s.after s.after_mode) before) t)
unfolding undo
undo-IsUndone io before t s willing last h o guard =
    let d : Disk = put s.path (file_of s.after s.after_mode) before in
    let (answer, clean) =
      mark_pending-answered io willing t (restore_guard-clear io willing s.turn t guard).0 in
    rw last (
      rw guard (
        rw (look-agrees io willing d (start_of_reversal s) (put_here io willing before s.path _))
          (undo_marked-IsUndone io willing before s (mark_pending io t) h o answer clean)))
