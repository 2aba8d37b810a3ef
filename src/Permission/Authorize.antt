-- ===== src/Permission/Authorize.antt =====
-- Authorize and reviewerVeto of internal/permission/permission.go. What the approver (a person)
-- answers and what the reviewer command prints are functions of the environment; the audit ledger
-- is the list of its entries, newest first.
pub mod Laws
use collomia.Common.{
  Bool, true, false, not, ◌&&◌, ◌||◌, List, [], ◌∷◌, Option, none, some, String, str_eq, is_empty,
  if◌then◌else◌, leb, ◌==◌, ◌-◌, ◌+◌, map,
}
use collomia.Common.Text.{Codes, codes, text_eq}
use collomia.Permission.Defs.{
  Risk, is_read, Action, Names, has, Manager, Source, Detail, Grant, grant_of, Outcome, Verdict,
  allow, prompt, deny, nothing, veto, reviewer, posture, interactive, credential_targets,
  publication_targets, one_time_only,
}
use collomia.Permission.Decide.{decide}
use collomia.Permission.Session.{Kind, Capability, capabilities, apply_grants}

-- What is shown to the approver.
pub record Prompt : Type 0 where
  pub tool : String
  pub action : Action
  pub reason : Detail
  pub capabilities : List Capability
  pub posture_gated : Bool
  pub allows_always : Bool

-- The approver's Decision.
pub record Choice : Type 0 where
  pub allow : Bool
  pub always : Bool
  pub grants : List Kind
  pub content : Option String

pub data Answer : Type 0 where
  failed : String → Answer
  chose : Choice → Answer

-- What a run of the reviewer command yields.
pub data Review : Type 0 where
  run_failed : String → Review
  unreadable : Review
  verdict : String → String → Review

pub data Error : Type 0 where
  denied_by_rule : Detail → Error
  tool_disabled : Error
  needs_approval : Error
  approver_failed : String → Error
  refused : Error

pub record Entry : Type 0 where
  pub tool : String
  pub action : Action
  pub allowed : Bool
  pub grant : Grant

pub record Session : Type 0 where
  pub manager : Manager
  pub ledger : List Entry

pub record Authorized : Type 0 where
  pub session : Session
  pub grant : Grant
  pub error : Option Error

-- strings.EqualFold with "deny", whose letters fold to nothing but their capitals.
abbrev lower : Codes → Codes
lower s = map (λ c. if leb b'A' c && leb c b'Z' then c + 32 else c) s

abbrev says_deny : String → Bool
says_deny word = text_eq (lower (codes word)) (codes "deny")

-- reviewerVeto; `none` is the empty reason.
unfoldable pub reviewer_veto : Manager → Review → Option String
unfolding text_eq
reviewer_veto m review = if str_eq m.reviewer "" then none else elim review [
  | run_failed why ↦ some why
  | unreadable ↦ some "reviewer returned an unreadable verdict"
  | verdict word why ↦
      if says_deny word
      then (if str_eq why "" then some "denied by reviewer" else some why)
      else none
]

-- `record(allowed)`
abbrev log : Session → String → Action → Bool → Grant → Session
log s tool a ok g = record s {
  ledger = record { tool = tool; action = a; allowed = ok; grant = g } ∷ s.ledger;
}

abbrev finish : Session → Grant → Option Error → Authorized
finish s g e = record { session = s; grant = g; error = e }

abbrev is_nothing : Detail → Bool
is_nothing nothing = true
is_nothing _ = false

abbrev is_posture : Source → Bool
is_posture posture = true
is_posture _ = false

module _ (classify : String → String) (tool : String) (a : Action) where
  pub one_time : Manager → Bool
  unfolding one_time_only
  one_time m =
      one_time_only a (credential_targets classify a m.protect_credentials)
        (publication_targets a m.publication)

  unfoldable pub prompt_of : Manager → Grant → Detail → Prompt
  unfolding one_time
  prompt_of m g reason =
      let gated = is_posture g.source in
      record {
        tool = tool;
        action = a;
        reason = reason;
        capabilities = capabilities classify m a;
        posture_gated = gated;
        allows_always = not (one_time m) && not gated;
      }

  -- The state after an approval: the tool-wide grant, if it may stick, and the picked grants.
  unfoldable pub remember : Manager → Choice → Manager
  unfolding one_time
  remember m choice =
      apply_grants classify a
        (if choice.always && not (one_time m) then record m { allowed = tool ∷ m.allowed } else m)
        choice.grants

  -- What follows the approver's answer.
  unfoldable pub reply : Session → Grant → Answer → Authorized
  unfolding remember
  reply s g (failed why) = finish (log s tool a false g) g (some (approver_failed why))
  reply s g (chose choice) =
      let picked : Grant = record {
        source = interactive;
        detail = g.detail;
        content = choice.content;
      } in
      let after : Session = record s { manager = remember s.manager choice } in
      if not choice.allow
      then finish (log s tool a false picked) picked (some refused)
      else finish (log after tool a true picked) picked none

  -- The part of Authorize from the prompt on; without an approver nobody can allow the action.
  unfoldable pub ask : Session → Option (Prompt → Answer) → Grant → Detail → Authorized
  unfolding prompt_of reply
  ask s none g reason = finish (log s tool a false g) g (some needs_approval)
  ask s (some approver) g reason = reply s g (approver (prompt_of s.manager g reason))

  -- The switch on the outcome. `why` is the veto on an action that does more than read; the source
  -- asks the reviewer only about an allowed one.
  unfoldable pub settle :
      Session → Option (Prompt → Answer) → Verdict → Outcome → Option String → Authorized
  unfolding ask
  settle s approver v deny why =
      finish (log s tool a false v.grant) v.grant
        (some (if is_nothing v.grant.detail then tool_disabled else denied_by_rule v.grant.detail))
  settle s approver v prompt why = ask s approver v.grant v.reason
  settle s approver v allow (some why) =
      ask s approver (grant_of reviewer v.grant.detail) (veto why v.grant.detail)
  settle s approver v allow none = finish (log s tool a true v.grant) v.grant none

  unfoldable pub authorize : Session → Option (Prompt → Answer) → Review → Authorized
  unfolding settle
  authorize s approver review =
      let v = decide classify s.manager tool a in
      settle s approver v v.outcome
        (if is_read a.risk then none else reviewer_veto s.manager review)
