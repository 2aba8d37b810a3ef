-- ===== src/Permission/Decide/Posture.antt =====
-- The scoped-network and command-allowlist postures of internal/permission/permission.go.
use collomia.Common.{true, false, List, String, str_eq, is_empty, ◌≡◌, ◌⊎◌, inl, inr, arith, eq_iff}
use collomia.Permission.Defs.{
  Action, Manager, is_read, execute, credential_targets, publication_targets, cover, covers_network,
  covers_executables, posture_prompt, allow,
}
use collomia.Permission.Decide.{decide}
use collomia.Permission.Decide.Granted.{
  AllGranted, Approval, credential_grant, publication_grant, plain_read, scope_grant, tool_grant,
  autopilot, workspace,
}
use collomia.Permission.Decide.Approval.{RuleApproval, decide-Approval}
use collomia.Permission.Decide.Safety.{all-AllGranted}

-- What approves without a person whatever the postures say: an allow rule, the session's grants of
-- a credential store or of a publication, and a read inside the workspace.
abbrev pub PostureExempt : (String → String) → Manager → String → Action → Type 0
PostureExempt classify m tool a =
    RuleApproval m tool a (credential_targets classify a m.protect_credentials)
      (publication_targets a m.publication)
    ⊎ ((is_empty (credential_targets classify a m.protect_credentials) ≡ false)
        × AllGranted m.allowed_credentials (credential_targets classify a m.protect_credentials))
    ⊎ ((is_empty (publication_targets a m.publication) ≡ false)
        × AllGranted m.allowed_publications (publication_targets a m.publication))
    ⊎ ((is_read a.risk ≡ true) × (a.outside ≡ false))

module _ (classify : String → String) (m : Manager) (tool : String) (a : Action) where
  abbrev creds : List String
  creds = credential_targets classify a m.protect_credentials

  abbrev pubs : List String
  pubs = publication_targets a m.publication

  -- Under the scoped network posture an action that reaches the network, and is not exempt, is
  -- approved without a person only if its hosts are all known, there is one, and each was granted
  -- this session.
  pub decide-scoped_network :
      m.network ≡ "scoped"
      → a.network ≡ true
      → (decide classify m tool a).outcome ≡ allow
      → PostureExempt classify m tool a
        ⊎ ((a.hosts_undetermined ≡ false)
            × (is_empty a.hosts ≡ false)
            × AllGranted m.allowed_hosts a.hosts)
  unfolding cover covers_network posture_prompt
  decide-scoped_network p n h = elim (decide-Approval classify m tool a h) [
    | inl r ↦ inl (inl r)
    | inr w ↦ by_grant w
  ]
    where
      scoped : str_eq m.network "scoped" ≡ true
      scoped = (eq_iff m.network "scoped").1 p

      by_grant :
          Approval m tool a creds pubs
          → PostureExempt classify m tool a
            ⊎ ((a.hosts_undetermined ≡ false)
                × (is_empty a.hosts ≡ false)
                × AllGranted m.allowed_hosts a.hosts)
      by_grant (credential_grant e _ g) = inl (inr (inl (e, g)))
      by_grant (publication_grant _ e _ g) = inl (inr (inr (inl (e, g))))
      by_grant (plain_read _ _ r o) = inl (inr (inr (inr (r, o))))
      by_grant (scope_grant _ _ c) =
          inr (ground arith, ground arith, all-AllGranted m.allowed_hosts a.hosts (ground arith))
      by_grant (tool_grant _ _ _ q _) = absurd (ground (arith, scoped))
      by_grant (autopilot _ _ _ q _ _ _) = absurd (ground (arith, scoped))
      by_grant (workspace _ _ _ q _ _ _) = absurd (ground (arith, scoped))

  -- Under the command allowlist an executing action that names executables, and is not exempt, is
  -- approved without a person only if each executable was granted this session.
  pub decide-command_allowlist :
      m.commands ≡ "allowlist"
      → a.risk ≡ execute
      → is_empty a.executables ≡ false
      → (decide classify m tool a).outcome ≡ allow
      → PostureExempt classify m tool a ⊎ AllGranted m.allowed_commands a.executables
  unfolding cover covers_executables posture_prompt
  decide-command_allowlist p x n h = elim (decide-Approval classify m tool a h) [
    | inl r ↦ inl (inl r)
    | inr w ↦ by_grant w
  ]
    where
      listed : str_eq m.commands "allowlist" ≡ true
      listed = (eq_iff m.commands "allowlist").1 p

      by_grant :
          Approval m tool a creds pubs
          → PostureExempt classify m tool a ⊎ AllGranted m.allowed_commands a.executables
      by_grant (credential_grant e _ g) = inl (inr (inl (e, g)))
      by_grant (publication_grant _ e _ g) = inl (inr (inr (inl (e, g))))
      by_grant (plain_read _ _ r o) = inl (inr (inr (inr (r, o))))
      by_grant (scope_grant _ _ c) =
          inr (all-AllGranted m.allowed_commands a.executables (ground arith))
      by_grant (tool_grant _ _ _ q _) = absurd (ground (arith, listed))
      by_grant (autopilot _ _ _ q _ _ _) = absurd (ground (arith, listed))
      by_grant (workspace _ _ _ q _ _ _) = absurd (ground (arith, listed))
