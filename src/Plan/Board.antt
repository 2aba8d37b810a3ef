-- ===== src/Plan/Board.antt =====
-- Board of internal/plan/plan.go: the plan that the agent maintains, under one lock. `now` is the
-- clock of the call and `observed` what OnUpdate was called with, the last first.
pub mod Writes
pub mod Updates
use collomia.Common.{
  ℕ, List, [], ◌∷◌, Option, none, some, String, Bool, true, false, if◌then◌else◌, ◌+◌, ◌%◌,
}
use collomia.Plan.Data.{Plan}
use collomia.Plan.Validate.{Fault, validate}
use collomia.Plan.Merge.{Json, Object, key_of, drop_key, merge_plan}

-- 2 ^ 64, the size of a uint64
abbrev pub revisions : ℕ
revisions = 18446744073709551616

pub record Board : Type 0 where
  pub current : Option Plan
  pub revision : ℕ
  pub observed : List Plan

-- What a write can fail with.
pub data BoardError : Type 0 where
  not_json : BoardError
  refused : Fault → BoardError

unfoldable pub new_board : Board
new_board = record { current = none; revision = 0; observed = [] }

abbrev pub next_revision : ℕ → ℕ
next_revision r = (r + 1) % revisions

unfoldable pub snapshot : Board → Option Plan × ℕ
snapshot b = (b.current, b.revision)

unfoldable pub clear_board : Board → Board
clear_board b = record b { current = none; revision = next_revision b.revision }

unfoldable pub restore : Board → Plan → Board
restore b p = record b { current = some p; revision = next_revision b.revision }

-- The write that Set and Update end with.
abbrev pub install : Board → ℕ → Plan → Board
install b now p =
    let stamped = record p { updated = now } in
    record {
      current = some stamped;
      revision = next_revision b.revision;
      observed = stamped ∷ b.observed;
    }

module _ (lower fold : ℕ → ℕ) where
  -- Set
  unfoldable pub set_plan : Board → ℕ → Plan → Board × Option BoardError
  unfolding validate
  set_plan b now p = elim (validate lower fold p) [
    | some f ↦ (b, some (refused f))
    | none ↦ (install b now p, none)
  ]

  module _ (J : Json) where
    -- `replace` of an update, and false where it is absent.
    abbrev pub replace_of : Object J.Raw → Option Bool
    replace_of incoming = elim (key_of "replace" incoming) [
      | none ↦ some false
      | some raw ↦ J.read_bool raw
    ]

    abbrev pub write_merged : Board → ℕ → Option Plan → Board × Option BoardError
    write_merged b now none = (b, some not_json)
    write_merged b now (some p) = set_plan b now p

    -- Update, on the object that the message was read into.
    unfoldable pub update : Board → ℕ → Object J.Raw → Board × Option BoardError
    unfolding set_plan merge_plan
    update b now incoming = elim (replace_of incoming) [
      | none ↦ (b, some not_json)
      | some replace ↦
          write_merged b now (merge_plan J b.current (drop_key "replace" incoming) replace)
    ]
