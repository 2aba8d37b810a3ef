-- ===== src/Permission/Decide/Approval.antt =====
-- Why the pipeline of internal/permission/permission.go approves an action without a person.
use collomia.Common.{
  true, not, ◌&&◌, List, [], ◌∷◌, Option, none, some, String, str_eq, ◌≡◌, ◌⊎◌, inl, inr, refl,
  arith, Bool-cases, Option-cases,
}
use collomia.Policy.{Decision, evaluate}
use collomia.Permission.Defs.{
  Action, Pattern, Manager, Verdict, request_of, credential_targets, publication_targets, allow,
  deny, ◌otherwise◌,
}
use collomia.Permission.Decide.{
  vouches, after_rules, before_rules, decide_base, restrict, decide, rule_gate, denied_gate,
  profile_gate, hard_deny_gate,
}
use collomia.Permission.Decide.Granted.{Approval, after_rules-Approval}

-- The base policy approves by its first matching rule, an allow rule that vouches for the action.
pub record RuleApproval (m : Manager) (tool : String) (a : Action) (creds pubs : List String)
    : Type 0 where
  pub decision : Decision
  pub first : evaluate m.rules (request_of tool a) ≡ some decision
  pub is_allow : str_eq decision.rule.action "allow" ≡ true
  pub vouched : vouches decision.rule a creds pubs ≡ true

module _ (m : Manager) (tool : String) (a : Action) (creds pubs : List String) where
  rule_gate-Approval :
      (o : Option Decision)
      → evaluate m.rules (request_of tool a) ≡ o
      → (rule_gate o a creds pubs otherwise after_rules m tool a creds pubs).outcome ≡ allow
      → RuleApproval m tool a creds pubs ⊎ Approval m tool a creds pubs
  unfolding rule_gate
  rule_gate-Approval none e h = inr (after_rules-Approval m tool a creds pubs h)
  rule_gate-Approval (some d) e h = elim (Bool-cases (str_eq d.rule.action "allow")) [
    | inl w ↦ elim (Bool-cases (vouches d.rule a creds pubs)) [
      | inl v ↦ inl (record { decision = d; first = e; is_allow = w; vouched = v })
      | inr v ↦ inr (after_rules-Approval m tool a creds pubs (ground arith))
    ]
    | inr w ↦ inr (after_rules-Approval m tool a creds pubs (ground arith))
  ]

profile_gate-deny :
    (ps : List Pattern) (a : Action) {v : Verdict} → profile_gate ps a ≡ some v → v.outcome ≡ deny
unfolding profile_gate
profile_gate-deny [] a h = cc
profile_gate-deny (p ∷ ps) a {v} h =
    elim (Bool-cases (not (str_eq a.command "") && p.match_string a.command)) [
      | inl e ↦ ground arith
      | inr e ↦ profile_gate-deny ps a {v = v} (ground arith)
    ]

-- What stands before the rules can only deny.
pub before_rules-deny :
    (m : Manager) (tool : String) (a : Action) {v : Verdict}
    → before_rules m tool a ≡ some v
    → v.outcome ≡ deny
unfolding before_rules denied_gate hard_deny_gate
before_rules-deny m tool a h = elim (Option-cases (denied_gate m tool)) [
  | inr (w, e) ↦ ground arith
  | inl e ↦ elim (Option-cases (profile_gate m.profile_denied_commands a)) [
    | inr (w, f) ↦ ground (arith, profile_gate-deny m.profile_denied_commands a f)
    | inl f ↦ ground arith
  ]
]

module _ (classify : String → String) (m : Manager) (tool : String) (a : Action) where
  decide_base-Approval :
      (decide_base classify m tool a).outcome ≡ allow
      → RuleApproval m tool a
          (credential_targets classify a m.protect_credentials)
          (publication_targets a m.publication)
        ⊎ Approval m tool a
            (credential_targets classify a m.protect_credentials)
            (publication_targets a m.publication)
  unfolding decide_base
  decide_base-Approval h = elim (Option-cases (before_rules m tool a)) [
    | inl e ↦
        rule_gate-Approval m tool a (credential_targets classify a m.protect_credentials)
          (publication_targets a m.publication) (evaluate m.rules (request_of tool a)) refl
          (rw e at h)
    | inr (v, e) ↦ absurd (ground (arith, before_rules-deny m tool a e))
  ]

  pub decide_base_of_decide :
      (decide classify m tool a).outcome ≡ allow → (decide_base classify m tool a).outcome ≡ allow
  unfolding decide restrict
  decide_base_of_decide h = grind arith

  -- An action is approved without a person only by an allow rule that vouches for it, or in one of
  -- the ways that `Approval` lists with their conditions.
  pub decide-Approval :
      (decide classify m tool a).outcome ≡ allow
      → RuleApproval m tool a
          (credential_targets classify a m.protect_credentials)
          (publication_targets a m.publication)
        ⊎ Approval m tool a
            (credential_targets classify a m.protect_credentials)
            (publication_targets a m.publication)
  decide-Approval h = decide_base-Approval (decide_base_of_decide h)
