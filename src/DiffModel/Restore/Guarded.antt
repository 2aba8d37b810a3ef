-- ===== src/DiffModel/Restore/Guarded.antt =====
-- internal/diffmodel/diff.go, RestoreTo: which files a restore may change, whatever the machine
-- answers, and when it cannot succeed.
use collomia.Common.{
  ℕ, ◌+◌, true, false, List, [], ◌∷◌, Option, none, some, ◌≡◌, ◌≢◌, refl, subst, ◌∙◌, All,
  Bool-cases, Option-cases, if_elim, inl, inr, ◌⊎◌, arith, ==_iff,
}
use collomia.Common.Int.{pos}
use collomia.Common.Text.{Codes, text_eq, text_eq→eq}
use collomia.Writescope.{text_lt}
use collomia.DiffModel.Data.{File, Disk, Tracker, TrackerError, Io, put, perm}
use collomia.DiffModel.Checkpoint.{persist, restore_guard}
use collomia.DiffModel.Plan.{Reversal, plan_reversals, earlier}
use collomia.DiffModel.Plan.Spans.{reversal_at}
use collomia.DiffModel.Restore.{
  Look, agrees, differs, fails, look_mode, look_read, look, look_all, Verified, failed, moved,
  with_look, verdict, verify, insert_sorted, rewrite_file, Applied, apply_plan, mark_pending,
  conclude, carry_out, restore_checked, restore_plan, restore_guarded, restore_to,
}

-- The look at every file of the plan agreed.
abbrev pub Agrees : Io → Disk → List Reversal → Type 0
Agrees io d plan = All (λ r. look io d r ≡ agrees) plan

-- A file is as the agent last wrote it: there is none where it was removed, and otherwise one with
-- the content that was written and the permission bits that it had then.
abbrev pub IsAsWritten : Option File → Option Codes → ℕ → Type 0
IsAsWritten f none m = f ≡ none
IsAsWritten f (some text) m =
    (x : File) × (f ≡ some x) × (x.content ≡ text) × (perm x.mode ≡ perm m)

-- Every file of the plan could be opened and read, and is as the agent last wrote it.
abbrev pub Untouched : Io → Disk → List Reversal → Type 0
Untouched io d plan =
    All
      (λ r.
        (io.opens r.path ≡ true)
        × (io.reads r.path ≡ true)
        × IsAsWritten (d r.path) r.expected r.expected_mode)
      plan

-- What a restore may do to a file: nothing, or a change to a file of the plan where every file of
-- the plan is as the agent last wrote it.
abbrev pub Spares : Io → Disk → List Reversal → Disk → Type 0
Spares io d plan after =
    (p : Codes)
    → (after p ≡ d p) ⊎ (Untouched io d plan × ((r : Reversal) × (reversal_at p plan ≡ some r)))

module _ (io : Io) where
  verdict-insert : (p : Codes) (qs : List Codes) → verdict (moved (insert_sorted p qs)) ≢ none
  unfolding insert_sorted
  verdict-insert p [] = λ h. cc
  verdict-insert p (q ∷ qs) =
      if_elim (λ l. verdict (moved l) ≢ none) (text_lt q p) (λ e h. cc) (λ e h. cc)

  with_look-agrees :
      (p : Codes) (l : Look) (v : Verified)
      → verdict (with_look p l v) ≡ none
      → (l ≡ agrees) × (verdict v ≡ none)
  unfolding insert_sorted
  with_look-agrees p (fails e) v h = cc
  with_look-agrees p agrees v h = (refl, h)
  with_look-agrees p differs (failed e) h = cc
  with_look-agrees p differs (moved qs) h = elim (verdict-insert p qs h) [ ]

  pub verify-Agrees : (d : Disk) (plan : List Reversal) → verify io d plan ≡ none → Agrees io d plan
  unfolding verify look_all
  verify-Agrees d [] h = tt
  verify-Agrees d (r ∷ rs) h =
      let (a, b) = with_look-agrees r.path (look io d r) (look_all io d rs) h in
      (a, verify-Agrees d rs b)

  look_mode-agrees :
      (r : Reversal) (f : File) → look_mode io r f ≡ agrees → perm f.mode ≡ perm r.expected_mode
  look_mode-agrees r f h = ground (arith, ==_iff (perm f.mode) (perm r.expected_mode))

  look_read-agrees :
      (r : Reversal) (o : Option Codes) (f : Option File)
      → look_read io r o f ≡ agrees
      → IsAsWritten f o r.expected_mode
  unfolding text_eq
  look_read-agrees r none none h = refl
  look_read-agrees r none (some f) h = cc
  look_read-agrees r (some text) none h = cc
  look_read-agrees r (some text) (some f) h = elim (Bool-cases (text_eq f.content text)) [
    | inl e ↦ (f, refl, text_eq→eq f.content text e, look_mode-agrees r f (rw e at h))
    | inr e ↦ absurd (ground arith)
  ]

  look-IsAsWritten :
      (d : Disk) (r : Reversal)
      → look io d r ≡ agrees
      → (io.opens r.path ≡ true)
        × (io.reads r.path ≡ true)
        × IsAsWritten (d r.path) r.expected r.expected_mode
  unfolding look
  look-IsAsWritten d r h = elim (Bool-cases (io.opens r.path)) [
    | inr e ↦ absurd (ground arith)
    | inl e ↦ elim (Bool-cases (io.reads r.path)) [
      | inr f ↦ absurd (ground arith)
      | inl f ↦ (e, f, look_read-agrees r r.expected (d r.path) (rw (e, f) at h))
    ]
  ]

  Agrees-Untouched : (d : Disk) (plan : List Reversal) → Agrees io d plan → Untouched io d plan
  Agrees-Untouched d [] ok = tt
  Agrees-Untouched d (r ∷ rs) (a, ok) = (look-IsAsWritten d r a, Agrees-Untouched d rs ok)

  -- A write leaves the other files.
  abbrev pub Elsewhere : Disk → Codes → Option Disk → Type 0
  Elsewhere d q none = Unit
  Elsewhere d q (some e) = (p : Codes) → text_eq p q ≡ false → e p ≡ d p

  put-Elsewhere : (d : Disk) (q : Codes) (f : Option File) → Elsewhere d q (some (put q f d))
  unfolding put
  put-Elsewhere d q f p e = rw e refl

  pub rewrite_file-Elsewhere :
      (d : Disk) (q : Codes) (target : Option Codes) (m : ℕ)
      → Elsewhere d q (rewrite_file io q target m d)
  unfolding rewrite_file
  rewrite_file-Elsewhere d q none m = elim (Option-cases (d q)) [
    | inl e ↦ rw (e, rewrite_file) tt
    | inr (f, e) ↦
        rw (e, rewrite_file)
          (if_elim (Elsewhere d q) (io.writes q) (λ w. put-Elsewhere d q none) (λ w. tt))
  ]
  rewrite_file-Elsewhere d q (some text) m =
      if_elim (Elsewhere d q) (io.writes q) (λ w. put-Elsewhere d q _) (λ w. tt)

  -- What the writes may do to a file.
  abbrev Touched : Disk → Codes → List Reversal → Option File → Type 0
  Touched d p plan f = (f ≡ d p) ⊎ ((r : Reversal) × (reversal_at p plan ≡ some r))

  Touched-cons :
      (d e : Disk) (p : Codes) (r : Reversal) (rs : List Reversal) (f : Option File)
      → Elsewhere d r.path (some e)
      → Touched e p rs f
      → Touched d p (r ∷ rs) f
  unfolding reversal_at
  Touched-cons d e p r rs f other t = elim (Bool-cases (text_eq p r.path)) [
    | inl same ↦ inr (r, rw same refl)
    | inr diff ↦ elim t [ inl kept ↦ inl (kept ∙ other p diff) | inr (q, at) ↦ inr (q, rw diff at) ]
  ]

  apply_plan-Touched :
      (plan : List Reversal) (d : Disk) (p : Codes)
      → Touched d p plan ((apply_plan io plan d).disk p)
  unfolding apply_plan
  apply_plan-Touched [] d p = inl refl
  apply_plan-Touched (r ∷ rs) d p =
      let far = rewrite_file-Elsewhere d r.path r.target r.target_mode in
      elim (Option-cases (rewrite_file io r.path r.target r.target_mode d)) [
        | inl e ↦ rw (e, apply_plan) (inl refl)
        | inr (d', e) ↦
            rw (e, apply_plan)
              (Touched-cons d d' p r rs _ (subst (Elsewhere d r.path) e far)
                (apply_plan-Touched rs d' p))
      ]

  conclude-disk :
      (turn : ℕ) (t : Tracker) (a : Applied) (e : Option TrackerError)
      → (conclude io turn t a e).disk ≡ a.disk
  unfolding persist earlier
  conclude-disk turn t a none = refl
  conclude-disk turn t a (some e) = refl

  carry_out-Spares :
      (turn : ℕ) (plan : List Reversal) (d : Disk) (m : Tracker × Option TrackerError)
      → Agrees io d plan
      → Spares io d plan (carry_out io turn plan d m).disk
  unfolding persist earlier apply_plan
  carry_out-Spares turn plan d (t, some e) ok p = inl refl
  carry_out-Spares turn plan d (t, none) ok p =
      rw (conclude-disk turn t (apply_plan io plan d) (apply_plan io plan d).failure)
        (elim (apply_plan-Touched plan d p) [
          | inl e ↦ inl e
          | inr h ↦ inr (Agrees-Untouched d plan ok, h)
        ])

  restore_checked-Spares :
      (turn : ℕ) (plan : List Reversal) (d : Disk) (t : Tracker) (v : Option TrackerError)
      → (v ≡ none → Agrees io d plan)
      → Spares io d plan (restore_checked io turn plan d t v).disk
  unfolding persist earlier apply_plan mark_pending
  restore_checked-Spares turn plan d t (some e) ok = λ p. inl refl
  restore_checked-Spares turn plan d t none ok =
      carry_out-Spares turn plan d (mark_pending io t) (ok refl)

  restore_plan-Spares :
      (turn : ℕ) (plan : List Reversal) (d : Disk) (t : Tracker)
      → Spares io d plan (restore_plan io turn plan d t).disk
  unfolding persist earlier apply_plan mark_pending verify
  restore_plan-Spares turn [] d t = λ p. inl refl
  restore_plan-Spares turn (r ∷ rs) d t =
      restore_checked-Spares turn (r ∷ rs) d t (verify io d (r ∷ rs)) (verify-Agrees d (r ∷ rs))

  restore_guarded-Spares :
      (turn : ℕ) (d : Disk) (t : Tracker) (v : Option TrackerError)
      → Spares io d (plan_reversals turn t) (restore_guarded io turn d t v).disk
  unfolding persist earlier apply_plan mark_pending verify
  restore_guarded-Spares turn d t (some e) = λ p. inl refl
  restore_guarded-Spares turn d t none = restore_plan-Spares turn (plan_reversals turn t) d t

-- Whatever the machine answers and whether it succeeds or not, a restore changes only files of its
-- plan, and only when every file of the plan could be opened and read and is as the agent last wrote
-- it: it does not exist where the agent removed it last, and has the content and the permission bits
-- of the last recorded mutation otherwise.
pub restore_to-Spares :
    (io : Io) (turn : ℕ) (d : Disk) (t : Tracker)
    → Spares io d (plan_reversals turn t) (restore_to io (pos turn) d t).disk
unfolding restore_to
restore_to-Spares io turn d t = restore_guarded-Spares io turn d t (restore_guard (turn + 1) t)
