-- ===== src/Permission/Decide/Safety.antt =====
-- The guarantees of the decision pipeline of internal/permission/permission.go.
use collomia.Common.{
  true, false, List, [], ◌∷◌, none, some, String, str_eq, is_empty, all, ◌≡◌, ◌≢◌, ◌⊎◌, inl, inr,
  refl, arith, Option-cases, eq_iff, ℕ, ◌≤◌,
}
use collomia.Policy.{Decision, evaluate}
use collomia.Permission.Defs.{
  Action, Pattern, Names, has, Manager, Outcome, request_of, credential_targets,
  publication_targets, names_specific_path, outstanding, cover, allow, prompt, deny, execute,
}
use collomia.Permission.Decide.{
  vouches, after_rules, before_rules, decide_base, restrict, decide, denied_gate, profile_gate,
  hard_deny_gate, credential_gate, rule_gate,
}
use collomia.Permission.Decide.Granted.{
  AllGranted, Approval, credential_grant, publication_grant, plain_read, scope_grant, tool_grant,
  autopilot, workspace,
}
use collomia.Permission.Decide.Approval.{before_rules-deny, decide-Approval}

-- How strict an outcome is.
abbrev pub strictness : Outcome → ℕ
strictness allow = 0
strictness prompt = 1
strictness deny = 2

-- The action is refused outright: its tool is denied by the configuration or the agent profile, a
-- denial pattern of the profile matches its command, or it has a catastrophic outcome.
abbrev pub MatchesSome : List Pattern → String → Type 0
MatchesSome [] command = ⊥
MatchesSome (p ∷ ps) command = (p.match_string command ≡ true) ⊎ MatchesSome ps command

abbrev pub IsBarred : Manager → String → Action → Type 0
IsBarred m tool a =
    (has m.denied tool ≡ true)
    ⊎ (has m.profile_denied tool ≡ true)
    ⊎ ((str_eq a.command "" ≡ false) × MatchesSome m.profile_denied_commands a.command)
    ⊎ (is_empty a.hard_deny_reasons ≡ false)

profile_gate-MatchesSome :
    (ps : List Pattern) (a : Action)
    → str_eq a.command "" ≡ false
    → MatchesSome ps a.command
    → profile_gate ps a ≢ none
unfolding profile_gate
profile_gate-MatchesSome [] a c h = absurd h
profile_gate-MatchesSome (p ∷ ps) a c (inl h) = ground arith
profile_gate-MatchesSome (p ∷ ps) a c (inr h) = ground (arith, profile_gate-MatchesSome ps a c h)

before_rules-IsBarred :
    (m : Manager) (tool : String) (a : Action) → IsBarred m tool a → before_rules m tool a ≢ none
unfolding before_rules denied_gate hard_deny_gate
before_rules-IsBarred m tool a (inl h) = ground arith
before_rules-IsBarred m tool a (inr (inl h)) = ground arith
before_rules-IsBarred m tool a (inr (inr (inl h))) =
    ground (arith, profile_gate-MatchesSome m.profile_denied_commands a h.0 h.1)
before_rules-IsBarred m tool a (inr (inr (inr h))) = ground arith

module _ (classify : String → String) (m : Manager) (tool : String) (a : Action) where
  -- A barred action is denied whatever the rules, modes, grants and restrictions say.
  pub decide-IsBarred : IsBarred m tool a → (decide classify m tool a).outcome ≡ deny
  unfolding decide decide_base
  decide-IsBarred b = elim (Option-cases (before_rules m tool a)) [
    | inl e ↦ absurd (before_rules-IsBarred m tool a b e)
    | inr (v, e) ↦ ground (arith, before_rules-deny m tool a {v = v} e)
  ]

  -- The restriction layer of a delegated agent never loosens what the base policy decided, and a
  -- denial of the base policy is returned unchanged.
  pub decide_tightens :
      (strictness (decide_base classify m tool a).outcome
        ≤ strictness (decide classify m tool a).outcome)
      × ((decide_base classify m tool a).outcome ≡ deny
          → decide classify m tool a ≡ decide_base classify m tool a)
  unfolding decide restrict
  decide_tightens = (grind arith, λ h. ground arith)

pub all-AllGranted :
    (granted : Names) (xs : List String) → all (has granted) xs ≡ true → AllGranted granted xs
all-AllGranted granted [] h = tt
all-AllGranted granted (x ∷ xs) h = (ground arith, all-AllGranted granted xs (ground arith))

outstanding-empty :
    (granted : Names) (targets : List String)
    → AllGranted granted targets
    → outstanding granted targets ≡ []
unfolding outstanding
outstanding-empty granted [] h = refl
outstanding-empty granted (t ∷ ts) h = ground (arith, outstanding-empty granted ts h.1)

module _ (classify : String → String) (m : Manager) (tool : String) (a : Action) where
  abbrev creds : List String
  creds = credential_targets classify a m.protect_credentials

  abbrev pubs : List String
  pubs = publication_targets a m.publication

  -- An action that reaches a credential store is approved without a person only if the first
  -- matching rule allows it and names a specific path, or if the setting is not "deny" and every
  -- store that it reaches was granted this session.
  pub decide-credentials :
      is_empty (credential_targets classify a m.protect_credentials) ≡ false
      → (decide classify m tool a).outcome ≡ allow
      → ((d : Decision) × (evaluate m.rules (request_of tool a) ≡ some d)
          × (d.rule.action ≡ "allow")
          × (names_specific_path d.rule.path ≡ true))
        ⊎ ((m.protect_credentials ≢ "deny")
            × AllGranted m.allowed_credentials
                (credential_targets classify a m.protect_credentials))
  unfolding vouches
  decide-credentials n h = elim (decide-Approval classify m tool a h) [
    | inl r ↦ inl (
      r.decision,
      r.first,
      (eq_iff r.decision.rule.action "allow").0 r.is_allow,
      (let v = r.vouched in ground arith),
    )
    | inr w ↦ by_grant w
  ]
    where
      by_grant :
          Approval m tool a creds pubs
          → ((d : Decision) × (evaluate m.rules (request_of tool a) ≡ some d)
              × (d.rule.action ≡ "allow")
              × (names_specific_path d.rule.path ≡ true))
            ⊎ ((m.protect_credentials ≢ "deny")
                × AllGranted m.allowed_credentials
                    (credential_targets classify a m.protect_credentials))
      by_grant (credential_grant e s g) =
          inr (λ q. absurd (ground (arith, (eq_iff m.protect_credentials "deny").1 q)), g)
      by_grant (publication_grant e _ _ _) = absurd (ground arith)
      by_grant (plain_read e _ _ _) = absurd (ground arith)
      by_grant (scope_grant e _ _) = absurd (ground arith)
      by_grant (tool_grant e _ _ _ _) = absurd (ground arith)
      by_grant (autopilot e _ _ _ _ _ _) = absurd (ground arith)
      by_grant (workspace e _ _ _ _ _ _) = absurd (ground arith)

  -- An opaque command is approved without a person only by a session grant that covers every
  -- credential store it reaches, or every operation that it publishes with.
  pub decide-uninspectable :
      a.uninspectable ≡ true
      → a.risk ≡ execute
      → (decide classify m tool a).outcome ≡ allow
      → ((is_empty (credential_targets classify a m.protect_credentials) ≡ false)
          × AllGranted m.allowed_credentials (credential_targets classify a m.protect_credentials))
        ⊎ ((is_empty (publication_targets a m.publication) ≡ false)
            × AllGranted m.allowed_publications (publication_targets a m.publication))
  unfolding vouches cover
  decide-uninspectable u x h = elim (decide-Approval classify m tool a h) [
    | inl r ↦ absurd (let v = r.vouched in ground arith)
    | inr w ↦ by_grant w
  ]
    where
      by_grant :
          Approval m tool a creds pubs
          → ((is_empty (credential_targets classify a m.protect_credentials) ≡ false)
              × AllGranted m.allowed_credentials
                  (credential_targets classify a m.protect_credentials))
            ⊎ ((is_empty (publication_targets a m.publication) ≡ false)
                × AllGranted m.allowed_publications (publication_targets a m.publication))
      by_grant (credential_grant e s g) = inl (e, g)
      by_grant (publication_grant _ e _ g) = inr (e, g)
      by_grant (plain_read _ _ r _) = absurd (ground arith)
      by_grant (scope_grant _ _ c) = absurd (ground arith)
      by_grant (tool_grant _ _ p _ _) = absurd (ground arith)
      by_grant (autopilot _ _ p _ _ _ _) = absurd (ground arith)
      by_grant (workspace _ _ p _ _ _ _) = absurd (ground arith)

  -- Where an action reaches at least one credential store, the setting for credentials is not to
  -- deny, every store that it reaches was granted this session, nothing before the rules stops the
  -- action and no rule or restriction matches it, the action is approved without a person, also an
  -- opaque command or one that carries a mandatory confirmation.
  pub decide-granted_credentials :
      is_empty (credential_targets classify a m.protect_credentials) ≡ false
      → m.protect_credentials ≢ "deny"
      → AllGranted m.allowed_credentials (credential_targets classify a m.protect_credentials)
      → before_rules m tool a ≡ none
      → evaluate m.rules (request_of tool a) ≡ none
      → evaluate m.restrictions (request_of tool a) ≡ none
      → (decide classify m tool a).outcome ≡ allow
  unfolding decide decide_base after_rules credential_gate rule_gate restrict
  decide-granted_credentials n s g b r t =
      ground (
        arith,
        outstanding-empty m.allowed_credentials creds g,
        eq_iff m.protect_credentials "deny",
      )
