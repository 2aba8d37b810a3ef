-- ===== src/Plan/Board/Updates.antt =====
-- Board.Update of internal/plan/plan.go: which updates fail, and what the others install.
use collomia.Common.{ℕ, Bool, true, false, [], ◌∷◌, Option, none, some, ◌≡◌, ◌⊎◌}
use collomia.Plan.Data.{Plan}
use collomia.Plan.Validate.{Fault}
use collomia.Plan.Validate.Valid.{IsValid}
use collomia.Plan.Merge.{Json, Object, key_of, put_all, drop_key, merge_incoming, merge_plan}
use collomia.Plan.Board.{Board, BoardError, not_json, refused, next_revision, replace_of}

module _ (lower fold : ℕ → ℕ) (J : Json) where
  -- What an update says of "replace": false where it does not say.
  abbrev pub Says : Object J.Raw → Bool → Type 0
  Says incoming r =
      ((key_of "replace" incoming ≡ none) × (r ≡ false))
      ⊎ ((raw : J.Raw) × (key_of "replace" incoming ≡ some raw) × (J.read_bool raw ≡ some r))

  -- The plan that an update makes of the board's: that of the update alone where the board has none
  -- or the update replaces it, and otherwise that of the board's with the keys of the update, whose
  -- steps are merged.
  pub data Merged (b : Board) (incoming : Object J.Raw) (p : Plan) : Type 0 where
    fresh :
        (r : Bool)
        → Says incoming r
        → b.current ≡ none
        → J.read_plan (put_all (drop_key "replace" incoming) []) ≡ some p
        → Merged b incoming p
    replaced :
        (q : Plan)
        → Says incoming true
        → b.current ≡ some q
        → J.read_plan (put_all (drop_key "replace" incoming) []) ≡ some p
        → Merged b incoming p
    merged :
        (q : Plan) (m : Object J.Raw)
        → Says incoming false
        → b.current ≡ some q
        → merge_incoming J (J.write_plan q) (drop_key "replace" incoming) ≡ some m
        → J.read_plan (put_all m (J.write_plan q)) ≡ some p
        → Merged b incoming p

  -- The board that holds a plan, stamped, at the next revision, and that has told the observer.
  abbrev pub holding : Board → ℕ → Plan → Board
  holding b now p = record {
    current = some (record p { updated = now });
    revision = next_revision b.revision;
    observed = record p { updated = now } ∷ b.observed;
  }

  abbrev pub IsUpdated : Board → ℕ → Object J.Raw → Board × Option BoardError → Type 0
  IsUpdated b now incoming r =
      ((r ≡ (b, some not_json)) × ((p : Plan) → ¬ Merged b incoming p))
      ⊎ ((p : Plan) × Merged b incoming p
          × (((f : Fault) × (r ≡ (b, some (refused f))) × (¬ IsValid lower fold p))
              ⊎ ((r ≡ (holding b now p, none)) × IsValid lower fold p)))

  -- The plan that Update sets.
  abbrev target : Board → Object J.Raw → Option Plan
  target b incoming = elim (replace_of lower fold J incoming) [
    | none ↦ none
    | some r ↦ merge_plan J b.current (drop_key "replace" incoming) r
  ]
