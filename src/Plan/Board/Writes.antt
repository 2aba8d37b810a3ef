-- ===== src/Plan/Board/Writes.antt =====
-- What a write of the board of internal/plan/plan.go leaves, and what its revision tells.
use collomia.Common.{
  ℕ, ◌+◌, ◌%◌, ◌<◌, ◌∷◌, Option, none, some, ◌≡◌, ◌≢◌, ◌⊎◌, inl, inr, refl, ◌∙◌, arith,
  Option-cases, suc,
}
use collomia.Plan.Data.{Plan}
use collomia.Plan.Validate.{validate}
use collomia.Plan.Merge.{Json, Object, drop_key, merge_plan}
use collomia.Plan.Board.{
  Board, BoardError, not_json, refused, revisions, next_revision, clear_board, restore, set_plan,
  replace_of, write_merged, update,
}

module _ (lower fold : ℕ → ℕ) where
  -- The board after a write: a valid plan that OnUpdate was told of.
  pub record IsInstalled (b c : Board) : Type 0 where
    pub plan : Plan
    pub current : c.current ≡ some plan
    pub valid : validate lower fold plan ≡ none
    pub revision : c.revision ≡ next_revision b.revision
    pub observed : c.observed ≡ plan ∷ b.observed

  -- A write fails and changes nothing, or installs a plan.
  abbrev pub Written : Board → Board × Option BoardError → Type 0
  Written b r =
      (((e : BoardError) × (r.1 ≡ some e)) × (r.0 ≡ b)) ⊎ ((r.1 ≡ none) × IsInstalled b r.0)

  validate-updated :
      (p : Plan) (now : ℕ)
      → validate lower fold (record p { updated = now }) ≡ validate lower fold p
  unfolding validate
  validate-updated p now = refl

  -- Set fails and changes nothing, or installs the plan, which is valid.
  set_plan-Written : (b : Board) (now : ℕ) (p : Plan) → Written b (set_plan lower fold b now p)
  unfolding set_plan
  set_plan-Written b now p = elim (Option-cases (validate lower fold p)) [
    | inl e ↦
        rw (set_plan, e)
          (inr (
            refl,
            record {
              plan = record p { updated = now };
              current = refl;
              valid = validate-updated p now ∙ e;
              revision = refl;
              observed = refl;
            },
          ))
    | inr (f, e) ↦ rw (set_plan, e) (inl ((refused f, refl), refl))
  ]

  module _ (J : Json) where
    write_merged-Written :
        (b : Board) (now : ℕ) (o : Option Plan) → Written b (write_merged lower fold J b now o)
    write_merged-Written b now none = inl ((not_json, refl), refl)
    write_merged-Written b now (some p) = set_plan-Written b now p

    update-Written :
        (b : Board) (now : ℕ) (incoming : Object J.Raw)
        → Written b (update lower fold J b now incoming)
    unfolding update
    update-Written b now incoming = elim (Option-cases (replace_of lower fold J incoming)) [
      | inl e ↦ rw (update, e) (inl ((not_json, refl), refl))
      | inr (replace, e) ↦
          rw (update, e)
            (write_merged-Written b now
              (merge_plan J b.current (drop_key "replace" incoming) replace))
    ]

    -- A call that changes the board.
    pub data Change : Board → Board → Type 0 where
      clears : (b : Board) → Change b (clear_board b)
      restores : (b : Board) (p : Plan) → Change b (restore b p)
      sets :
          (b : Board) (now : ℕ) (p : Plan)
          → (set_plan lower fold b now p).1 ≡ none
          → Change b (set_plan lower fold b now p).0
      updates :
          (b : Board) (now : ℕ) (incoming : Object J.Raw)
          → (update lower fold J b now incoming).1 ≡ none
          → Change b (update lower fold J b now incoming).0

    -- So many changes, one after the other.
    pub data Changes (b : Board) : ℕ → Board → Type 0 where
      here : Changes b 0 b
      next : {n : ℕ} {c d : Board} → Changes b n c → Change c d → Changes b (suc n) d

    Written-revision :
        (b : Board) (r : Board × Option BoardError)
        → Written b r
        → r.1 ≡ none
        → r.0.revision ≡ next_revision b.revision
    Written-revision b r (inl ((e, failed), same)) h = cc
    Written-revision b r (inr (done, installed)) h = installed.revision

    Change-revision : {b c : Board} → Change b c → c.revision ≡ next_revision b.revision
    unfolding clear_board restore
    Change-revision (clears b) = refl
    Change-revision (restores b p) = refl
    Change-revision (sets b now p h) =
        Written-revision b (set_plan lower fold b now p) (set_plan-Written b now p) h
    Change-revision (updates b now incoming h) =
        Written-revision b (update lower fold J b now incoming) (update-Written b now incoming) h

    Changes-revision :
        {b c : Board} {n : ℕ}
        → b.revision < revisions
        → Changes b n c
        → c.revision ≡ (b.revision + n) % revisions
    Changes-revision h here = omega arith
    Changes-revision h (next {n} {c} steps last) =
        let before = Changes-revision h steps in let after = Change-revision last in omega arith

    -- Two snapshots with changes between them, but fewer than 2 ^ 64, have different revisions.
    pub Changes-fresh :
        {b c : Board} {n : ℕ}
        → b.revision < revisions
        → 0 < n
        → n < revisions
        → Changes b n c
        → b.revision ≢ c.revision
    Changes-fresh h k l steps same = let after = Changes-revision h steps in omega arith
