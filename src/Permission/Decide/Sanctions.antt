-- ===== src/Permission/Decide/Sanctions.antt =====
-- The sanctions under which the pipeline of internal/permission/permission.go approves an action
-- without a person, each with its conditions on the action and the manager.
use collomia.Common.{
  true, false, List, [], ◌∷◌, none, some, String, str_eq, is_empty, all, ◌≡◌, ◌⊎◌, inl, inr, refl,
  arith, Bool-cases,
}
use collomia.Policy.{Decision, names_operation, evaluate}
use collomia.Permission.Defs.{
  Risk, read, write, execute, is_read, is_write, is_external, Action, Names, has, Manager,
  request_of, credential_targets, publication_targets, names_specific_path, covers_executables,
  covers_network, cover, posture_prompt, allow,
}
use collomia.Permission.Decide.{vouches, decide}
use collomia.Permission.Decide.Granted.{
  AllGranted, IsPlain, Approval, credential_grant, publication_grant, plain_read, scope_grant,
  tool_grant, autopilot, workspace,
}
use collomia.Permission.Decide.Approval.{RuleApproval, decide-Approval}

-- The action needs no confirmation and all of its command was read.
abbrev pub IsClear : Action → Type 0
IsClear a = (is_empty a.confirm_reasons ≡ true) × (a.uninspectable ≡ false)

-- The network is not used, or only for known hosts, at least one, which were all granted.
abbrev pub HostsGranted : Manager → Action → Type 0
HostsGranted m a =
    (a.network ≡ false)
    ⊎ ((a.hosts_undetermined ≡ false)
        × (is_empty a.hosts ≡ false)
        × AllGranted m.allowed_hosts a.hosts)

-- No posture asks: under the command allowlist nothing named is executed, and under the scoped
-- network the network is not used.
abbrev pub InPosture : Manager → Action → Type 0
InPosture m a =
    (str_eq m.commands "allowlist" ≡ true → a.risk ≡ execute → is_empty a.executables ≡ true)
    × (str_eq m.network "scoped" ≡ true → a.network ≡ false)

pub data Sanction (m : Manager) (tool : String) (a : Action) (creds pubs : List String)
    : Type 0 where
  by_rule :
      (d : Decision)
      → evaluate m.rules (request_of tool a) ≡ some d
      → str_eq d.rule.action "allow" ≡ true
      → IsClear a
      → (is_empty creds ≡ false → names_specific_path d.rule.path ≡ true)
      → (is_empty pubs ≡ false → names_operation d.rule.command ≡ true)
      → Sanction m tool a creds pubs
  by_credentials :
      is_empty creds ≡ false
      → str_eq m.protect_credentials "deny" ≡ false
      → AllGranted m.allowed_credentials creds
      → Sanction m tool a creds pubs
  by_publications :
      is_empty creds ≡ true
      → is_empty pubs ≡ false
      → str_eq m.publication "deny" ≡ false
      → AllGranted m.allowed_publications pubs
      → Sanction m tool a creds pubs
  by_reading :
      is_empty creds ≡ true
      → is_empty pubs ≡ true
      → a.risk ≡ read
      → a.outside ≡ false
      → Sanction m tool a creds pubs
  by_scope :
      is_empty creds ≡ true
      → is_empty pubs ≡ true
      → IsClear a
      → (is_empty a.executables ≡ false) ⊎ (a.network ≡ true)
      → AllGranted m.allowed_commands a.executables
      → HostsGranted m a
      → Sanction m tool a creds pubs
  by_session :
      is_empty creds ≡ true
      → is_empty pubs ≡ true
      → (a.risk ≡ execute → IsClear a)
      → InPosture m a
      → has m.allowed tool ≡ true
      → Sanction m tool a creds pubs
  by_autopilot :
      is_empty creds ≡ true
      → is_empty pubs ≡ true
      → (a.risk ≡ execute → IsClear a)
      → InPosture m a
      → str_eq m.mode "autopilot" ≡ true
      → is_external a.risk ≡ false
      → (a.outside ≡ false) ⊎ (m.allow_outside ≡ true)
      → Sanction m tool a creds pubs
  by_workspace :
      is_empty creds ≡ true
      → is_empty pubs ≡ true
      → InPosture m a
      → str_eq m.mode "workspace" ≡ true
      → a.outside ≡ false
      → a.risk ≡ write
      → Sanction m tool a creds pubs

is_read→read : (r : Risk) → is_read r ≡ true → r ≡ read
is_read→read read h = refl
is_read→read _ h = cc

is_write→write : (r : Risk) → is_write r ≡ true → r ≡ write
is_write→write write h = refl
is_write→write _ h = cc

all-AllGranted :
    (granted : Names) (ts : List String) → all (has granted) ts ≡ true → AllGranted granted ts
all-AllGranted granted [] h = tt
all-AllGranted granted (t ∷ ts) h = (ground arith, all-AllGranted granted ts (ground arith))

IsPlain-IsClear : (a : Action) → IsPlain a → a.risk ≡ execute → IsClear a
IsPlain-IsClear a p e = (ground arith, ground arith)

posture_prompt-InPosture :
    (m : Manager) (a : Action) → posture_prompt a m.network m.commands ≡ none → InPosture m a
unfolding posture_prompt
posture_prompt-InPosture m a h = (λ e f. ground arith, λ e. ground arith)

module _ (m : Manager) (tool : String) (a : Action) (creds pubs : List String) where
  scope-Sanction :
      is_empty creds ≡ true → is_empty pubs ≡ true → cover m a ≡ true → Sanction m tool a creds pubs
  unfolding cover covers_executables covers_network
  scope-Sanction c p h =
      by_scope c p (ground arith, ground arith)
        (elim (Bool-cases a.network) [ inl e ↦ inr e | inr e ↦ inl (ground arith) ])
        (all-AllGranted m.allowed_commands a.executables (ground arith))
        (elim (Bool-cases a.network) [
          | inr e ↦ inl e
          | inl e ↦
              inr
                (ground arith, ground arith, all-AllGranted m.allowed_hosts a.hosts (ground arith))
        ])

  Approval-Sanction : Approval m tool a creds pubs → Sanction m tool a creds pubs
  Approval-Sanction (credential_grant c s g) = by_credentials c s g
  Approval-Sanction (publication_grant c p s g) = by_publications c p s g
  Approval-Sanction (plain_read c p r o) = by_reading c p (is_read→read a.risk r) o
  Approval-Sanction (scope_grant c p k) = scope-Sanction c p k
  Approval-Sanction (tool_grant c p q n g) =
      by_session c p (IsPlain-IsClear a q) (posture_prompt-InPosture m a n) g
  Approval-Sanction (autopilot c p q n w x o) =
      by_autopilot c p (IsPlain-IsClear a q) (posture_prompt-InPosture m a n) w x
        (elim (Bool-cases a.outside) [ inl e ↦ inr (ground arith) | inr e ↦ inl e ])
  Approval-Sanction (workspace c p q n w o x) =
      by_workspace c p (posture_prompt-InPosture m a n) w o (is_write→write a.risk x)

  RuleApproval-Sanction : RuleApproval m tool a creds pubs → Sanction m tool a creds pubs
  unfolding vouches
  RuleApproval-Sanction r =
      let v = r.vouched in
      by_rule r.decision r.first r.is_allow (ground arith, ground arith) (λ c. ground arith)
        (λ p. ground arith)

-- An action is approved without a person only under one of these sanctions. First, the first rule
-- that matches allows it, it needs no confirmation and was read in full, and the rule names a
-- specific path where it reaches credential stores and an operation where it publishes. Second,
-- session grants for every credential store that it reaches, where these are not to be denied.
-- Third, where it reaches none, session grants for every operation that it publishes with, where
-- these are not to be denied. The others are for an action that does neither: it reads inside the
-- workspace; it needs no confirmation, was read in full, runs executables or uses the network, and
-- all its executables and hosts are known and granted; or, where no posture asks and an execution
-- needs no confirmation and was read in full, its tool is allowed for the session, or the mode is
-- autopilot, the action is not external, and stays inside or may leave the workspace, or the mode is
-- workspace and the action writes inside.
pub decide-Sanction :
    (classify : String → String) (m : Manager) (tool : String) (a : Action)
    → (decide classify m tool a).outcome ≡ allow
    → Sanction m tool a
        (credential_targets classify a m.protect_credentials)
        (publication_targets a m.publication)
decide-Sanction classify m tool a h = elim (decide-Approval classify m tool a h) [
  | inl r ↦ RuleApproval-Sanction m tool a _ _ r
  | inr w ↦ Approval-Sanction m tool a _ _ w
]
