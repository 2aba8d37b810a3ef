-- ===== src/Permission/Decide.antt =====
-- The decision pipeline of internal/permission/permission.go: decideBase, decide and Evaluate.
-- Each early return of the source is a gate that may stop the pipeline.
pub mod Granted
pub mod Approval
pub mod Sanctions
pub mod Safety
pub mod Posture
use collomia.Common.{
  Bool, true, false, not, ◌&&◌, ◌||◌, List, [], ◌∷◌, Option, none, some, String, str_eq, is_empty,
  if◌then◌else◌,
}
use collomia.Policy.{Rule, Request, Decision, matched, names_operation, evaluate}
use collomia.Permission.Defs.{
  Risk, is_read, is_write, is_execute, is_external, Action, Pattern, Names, has, Manager, Source,
  Detail, Grant, grant_of, Outcome, Verdict, ◌otherwise◌, stop, request_of, credential_targets,
  publication_targets, names_specific_path, outstanding, cover, posture_prompt, denied_tool,
  agent_profile, safety, rule, credentials, publication, session_scope, implicit_read, analysis,
  posture, session, mode, interactive, nothing, by_pattern, by_rule, by_restriction, reasons,
  reaches, scope, allow, prompt, deny,
}

denied_gate : Manager → String → Option Verdict
denied_gate m tool =
    if has m.denied tool || has m.profile_denied tool
    then stop denied_tool nothing deny nothing
    else none

profile_gate : List Pattern → Action → Option Verdict
profile_gate [] a = none
profile_gate (p ∷ ps) a =
    let rest = profile_gate ps a in
    if not (str_eq a.command "") && p.match_string a.command
    then stop agent_profile (by_pattern p.text) deny nothing
    else rest

-- Catastrophic outcomes are refused before rules, modes and grants.
hard_deny_gate : Action → Option Verdict
hard_deny_gate a =
    if not (is_empty a.hard_deny_reasons)
    then stop safety (reasons a.hard_deny_reasons) deny nothing
    else none

-- An allow rule vouches for an ordinary action, for a credential store whose path it names, and
-- for a publication whose operation it names.
unfoldable pub vouches : Rule → Action → List String → List String → Bool
vouches r a creds pubs =
    is_empty a.confirm_reasons
    && not a.uninspectable
    && (is_empty creds || names_specific_path r.path)
    && (is_empty pubs || names_operation r.command)

-- The switch on the action word of a rule that matched; any other word falls through.
rule_gate : Option Decision → Action → List String → List String → Option Verdict
unfolding vouches matched
rule_gate none a creds pubs = none
rule_gate (some d) a creds pubs =
    if not (matched (some d))
    then none
    else if str_eq d.rule.action "deny"
    then stop rule (by_rule d) deny nothing
    else if str_eq d.rule.action "allow"
    then (if vouches d.rule a creds pubs then stop rule (by_rule d) allow nothing else none)
    else if str_eq d.rule.action "prompt"
    then stop rule (by_rule d) prompt (by_rule d)
    else none

credential_gate : Manager → List String → Option Verdict
unfolding outstanding
credential_gate m creds =
    if is_empty creds
    then none
    else if str_eq m.protect_credentials "deny"
    then stop credentials (reaches creds) deny nothing
    else let open_targets = outstanding m.allowed_credentials creds in
      if not (is_empty open_targets)
      then stop credentials (reaches open_targets) prompt nothing
      else stop session_scope (reaches creds) allow nothing

publication_gate : Manager → List String → Option Verdict
unfolding outstanding
publication_gate m pubs =
    if is_empty pubs
    then none
    else if str_eq m.publication "deny"
    then stop publication (reaches pubs) deny nothing
    else let open_targets = outstanding m.allowed_publications pubs in
      if not (is_empty open_targets)
      then stop publication (reaches open_targets) prompt nothing
      else stop session_scope (reaches pubs) allow nothing

read_gate : Action → Option Verdict
read_gate a =
    if is_read a.risk && not a.outside then stop implicit_read nothing allow nothing else none

analysis_gate : Action → Option Verdict
analysis_gate a =
    if a.uninspectable && is_execute a.risk
    then stop analysis nothing prompt (reasons a.analysis_reasons)
    else none

confirm_gate : Action → Option Verdict
confirm_gate a =
    if not (is_empty a.confirm_reasons) && is_execute a.risk
    then stop safety (reasons a.confirm_reasons) prompt (reasons a.confirm_reasons)
    else none

scope_gate : Manager → Action → Option Verdict
unfolding cover
scope_gate m a =
    if cover m a then stop session_scope (scope a.executables a.hosts) allow nothing else none

posture_gate : Manager → Action → Option Verdict
unfolding posture_prompt
posture_gate m a = elim (posture_prompt a m.network m.commands) [
  | none ↦ none
  | some why ↦ stop posture nothing prompt why
]

-- The tool-wide session grant, the autonomy mode, and the person.
mode_gate : Manager → String → Action → Verdict
mode_gate m tool a =
    if has m.allowed tool
    then record { grant = grant_of session nothing; outcome = allow; reason = nothing }
    else if str_eq m.mode "autopilot"
        && not (is_external a.risk)
        && (not a.outside || m.allow_outside)
    then record { grant = grant_of mode nothing; outcome = allow; reason = nothing }
    else if str_eq m.mode "workspace" && not a.outside && is_write a.risk
    then record { grant = grant_of mode nothing; outcome = allow; reason = nothing }
    else record { grant = grant_of interactive nothing; outcome = prompt; reason = nothing }

-- The gates after the policy rules, in the source's order.
unfoldable pub after_rules : Manager → String → Action → List String → List String → Verdict
unfolding credential_gate publication_gate read_gate analysis_gate confirm_gate scope_gate
    posture_gate mode_gate
after_rules m tool a creds pubs =
    credential_gate m creds
    otherwise publication_gate m pubs
    otherwise read_gate a
    otherwise analysis_gate a
    otherwise confirm_gate a
    otherwise scope_gate m a
    otherwise posture_gate m a
    otherwise mode_gate m tool a

-- The gates before the policy rules.
unfoldable pub before_rules : Manager → String → Action → Option Verdict
unfolding denied_gate profile_gate hard_deny_gate
before_rules m tool a = elim (denied_gate m tool) [
  | some v ↦ some v
  | none ↦ elim (profile_gate m.profile_denied_commands a) [
    | some v ↦ some v
    | none ↦ hard_deny_gate a
  ]
]

-- The stricter of the base policy and the restriction layer.
unfoldable pub restrict : Option Decision → Verdict → Verdict
unfolding matched
restrict none v = v
restrict (some d) v =
    if not (matched (some d))
    then v
    else if str_eq d.rule.action "deny"
    then record { grant = grant_of rule (by_restriction d); outcome = deny; reason = nothing }
    else if str_eq d.rule.action "prompt"
    then elim v.outcome [
      | allow ↦ record {
        grant = grant_of rule (by_restriction d);
        outcome = prompt;
        reason = by_restriction d;
      }
      | _ ↦ v
    ]
    else v

module _ (classify : String → String) where
  unfoldable pub decide_base : Manager → String → Action → Verdict
  unfolding before_rules rule_gate after_rules
  decide_base m tool a =
      let creds = credential_targets classify a m.protect_credentials in
      let pubs = publication_targets a m.publication in
      before_rules m tool a
      otherwise rule_gate (evaluate m.rules (request_of tool a)) a creds pubs
      otherwise after_rules m tool a creds pubs

  unfoldable pub decide : Manager → String → Action → Verdict
  unfolding restrict
  decide m tool a =
      let v = decide_base m tool a in
      elim v.outcome [ deny ↦ v | _ ↦ restrict (evaluate m.restrictions (request_of tool a)) v ]
