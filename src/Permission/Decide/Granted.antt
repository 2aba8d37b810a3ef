-- ===== src/Permission/Decide/Granted.antt =====
-- Why the gates after the policy rules of internal/permission/permission.go approve an action.
use collomia.Common.{
  true, false, not, ◌&&◌, ◌||◌, List, [], ◌∷◌, none, String, str_eq, is_empty, All, ◌≡◌, inl, inr,
  arith, Bool-cases, Option-cases,
}
use collomia.Permission.Defs.{
  is_read, is_write, is_execute, is_external, Action, Names, has, Manager, outstanding, cover,
  posture_prompt, allow, ◌otherwise◌,
}
use collomia.Permission.Decide.{
  after_rules, read_gate, analysis_gate, confirm_gate, scope_gate, posture_gate, mode_gate,
  credential_gate, publication_gate,
}

-- Every target is in the session's grants.
abbrev pub AllGranted : Names → List String → Type 0
AllGranted granted targets = All (λ t. has granted t ≡ true) targets

AllGranted-of_outstanding :
    (granted : Names) (targets : List String)
    → is_empty (outstanding granted targets) ≡ true
    → AllGranted granted targets
unfolding outstanding
AllGranted-of_outstanding granted [] h = tt
AllGranted-of_outstanding granted (t ∷ ts) h = elim (Bool-cases (has granted t)) [
  | inl e ↦ (e, AllGranted-of_outstanding granted ts (ground arith))
  | inr e ↦ absurd (ground arith)
]

-- Neither an opaque command nor one with a mandatory confirmation.
abbrev pub IsPlain : Action → Type 0
IsPlain a =
    ((a.uninspectable && is_execute a.risk) ≡ false)
    × ((not (is_empty a.confirm_reasons) && is_execute a.risk) ≡ false)

-- The ways to an approval that no rule gave.
pub data Approval (m : Manager) (tool : String) (a : Action) (creds pubs : List String)
    : Type 0 where
  credential_grant :
      is_empty creds ≡ false
      → str_eq m.protect_credentials "deny" ≡ false
      → AllGranted m.allowed_credentials creds
      → Approval m tool a creds pubs
  publication_grant :
      is_empty creds ≡ true
      → is_empty pubs ≡ false
      → str_eq m.publication "deny" ≡ false
      → AllGranted m.allowed_publications pubs
      → Approval m tool a creds pubs
  plain_read :
      is_empty creds ≡ true
      → is_empty pubs ≡ true
      → is_read a.risk ≡ true
      → a.outside ≡ false
      → Approval m tool a creds pubs
  scope_grant :
      is_empty creds ≡ true → is_empty pubs ≡ true → cover m a ≡ true → Approval m tool a creds pubs
  tool_grant :
      is_empty creds ≡ true
      → is_empty pubs ≡ true
      → IsPlain a
      → posture_prompt a m.network m.commands ≡ none
      → has m.allowed tool ≡ true
      → Approval m tool a creds pubs
  autopilot :
      is_empty creds ≡ true
      → is_empty pubs ≡ true
      → IsPlain a
      → posture_prompt a m.network m.commands ≡ none
      → str_eq m.mode "autopilot" ≡ true
      → is_external a.risk ≡ false
      → (not a.outside || m.allow_outside) ≡ true
      → Approval m tool a creds pubs
  workspace :
      is_empty creds ≡ true
      → is_empty pubs ≡ true
      → IsPlain a
      → posture_prompt a m.network m.commands ≡ none
      → str_eq m.mode "workspace" ≡ true
      → a.outside ≡ false
      → is_write a.risk ≡ true
      → Approval m tool a creds pubs

module _ (m : Manager) (tool : String) (a : Action) (creds pubs : List String) where
  mode_gate-Approval :
      is_empty creds ≡ true
      → is_empty pubs ≡ true
      → IsPlain a
      → posture_prompt a m.network m.commands ≡ none
      → (mode_gate m tool a).outcome ≡ allow
      → Approval m tool a creds pubs
  unfolding mode_gate
  mode_gate-Approval ce pe plain quiet h = elim (Bool-cases (has m.allowed tool)) [
    | inl e ↦ tool_grant ce pe plain quiet e
    | inr n ↦
        elim (Bool-cases (
          str_eq m.mode "autopilot"
          && not (is_external a.risk)
          && (not a.outside || m.allow_outside))) [
            | inl e ↦ autopilot ce pe plain quiet (ground arith) (ground arith) (ground arith)
            | inr k ↦ workspace ce pe plain quiet (ground arith) (ground arith) (ground arith)
          ]
  ]

  posture_gate-Approval :
      is_empty creds ≡ true
      → is_empty pubs ≡ true
      → IsPlain a
      → (posture_gate m a otherwise mode_gate m tool a).outcome ≡ allow
      → Approval m tool a creds pubs
  unfolding posture_gate
  posture_gate-Approval ce pe plain h =
      elim (Option-cases (posture_prompt a m.network m.commands)) [
        | inl e ↦ mode_gate-Approval ce pe plain e (rw (e, posture_gate) at h)
        | inr (why, e) ↦ absurd (ground arith)
      ]

  scope_gate-Approval :
      is_empty creds ≡ true
      → is_empty pubs ≡ true
      → IsPlain a
      → (scope_gate m a otherwise posture_gate m a otherwise mode_gate m tool a).outcome ≡ allow
      → Approval m tool a creds pubs
  unfolding scope_gate
  scope_gate-Approval ce pe plain h = elim (Bool-cases (cover m a)) [
    | inl e ↦ scope_grant ce pe e
    | inr e ↦ posture_gate-Approval ce pe plain (rw e at h)
  ]

  confirm_gate-Approval :
      is_empty creds ≡ true
      → is_empty pubs ≡ true
      → (analysis_gate a
          otherwise confirm_gate a
          otherwise scope_gate m a
          otherwise posture_gate m a
          otherwise mode_gate m tool a).outcome
        ≡ allow
      → Approval m tool a creds pubs
  unfolding analysis_gate confirm_gate
  confirm_gate-Approval ce pe h = elim (Bool-cases (a.uninspectable && is_execute a.risk)) [
    | inl e ↦ absurd (ground arith)
    | inr e ↦ elim (Bool-cases (not (is_empty a.confirm_reasons) && is_execute a.risk)) [
      | inl f ↦ absurd (ground arith)
      | inr f ↦ scope_gate-Approval ce pe (e, f) (rw (e, f) at h)
    ]
  ]

  read_gate-Approval :
      is_empty creds ≡ true
      → is_empty pubs ≡ true
      → (read_gate a
          otherwise analysis_gate a
          otherwise confirm_gate a
          otherwise scope_gate m a
          otherwise posture_gate m a
          otherwise mode_gate m tool a).outcome
        ≡ allow
      → Approval m tool a creds pubs
  unfolding read_gate
  read_gate-Approval ce pe h = elim (Bool-cases (is_read a.risk && not a.outside)) [
    | inl e ↦ plain_read ce pe (ground arith) (ground arith)
    | inr e ↦ confirm_gate-Approval ce pe (rw e at h)
  ]

  publication_gate-Approval :
      is_empty creds ≡ true
      → (publication_gate m pubs
          otherwise read_gate a
          otherwise analysis_gate a
          otherwise confirm_gate a
          otherwise scope_gate m a
          otherwise posture_gate m a
          otherwise mode_gate m tool a).outcome
        ≡ allow
      → Approval m tool a creds pubs
  unfolding publication_gate
  publication_gate-Approval ce h = elim (Bool-cases (is_empty pubs)) [
    | inl e ↦ read_gate-Approval ce e (rw e at h)
    | inr e ↦ elim (Bool-cases (str_eq m.publication "deny")) [
      | inl d ↦ absurd (ground arith)
      | inr d ↦ elim (Bool-cases (is_empty (outstanding m.allowed_publications pubs))) [
        | inl o ↦ publication_grant ce e d (AllGranted-of_outstanding m.allowed_publications pubs o)
        | inr o ↦ absurd (ground arith)
      ]
    ]
  ]

  pub after_rules-Approval :
      (after_rules m tool a creds pubs).outcome ≡ allow → Approval m tool a creds pubs
  unfolding after_rules credential_gate
  after_rules-Approval h = elim (Bool-cases (is_empty creds)) [
    | inl e ↦ publication_gate-Approval e (rw e at h)
    | inr e ↦ elim (Bool-cases (str_eq m.protect_credentials "deny")) [
      | inl d ↦ absurd (ground arith)
      | inr d ↦ elim (Bool-cases (is_empty (outstanding m.allowed_credentials creds))) [
        | inl o ↦ credential_grant e d (AllGranted-of_outstanding m.allowed_credentials creds o)
        | inr o ↦ absurd (ground arith)
      ]
    ]
  ]
