-- ===== src/Permission/Session.antt =====
-- The state of the permission manager of internal/permission/permission.go: modes and profiles,
-- session grants, and Authorize. The approver (a person) and the reviewer command are functions of
-- the environment.
pub mod Grants
pub mod Offers
pub mod OffersKept
use collomia.Common.{
  Bool, true, false, not, ◌&&◌, ◌||◌, List, [], ◌∷◌, ◌++◌, Option, none, some, String, any, keep,
  str_eq, is_empty, if◌then◌else◌, ℕ, ltb, ◌==◌,
}
use collomia.Common.Text.{codes, Codes}
use collomia.Policy.{Rule}
use collomia.Permission.Defs.{
  Risk, is_read, Action, Pattern, Names, has, Manager, Source, Detail, Grant, grant_of, Verdict,
  allow, prompt, deny, nothing, veto, posture, reviewer, interactive, credential_targets,
  publication_targets, one_time_only, covers_all, covers_executables, covers_network,
}
use collomia.Permission.Decide.{decide}

-- The rank of an autonomy mode; a word that the map lacks has rank 0.
unfoldable pub rank : String → ℕ
rank m = if str_eq m "autopilot" then 2 else if str_eq m "workspace" then 1 else 0

unfoldable pub restricted_mode : String → String → String
restricted_mode base profile =
    if str_eq profile "" then base else if ltb (rank profile) (rank base) then profile else base

-- SetMode; `none` is the error of an unknown mode.
unfoldable pub set_mode : Manager → String → Option Manager
unfolding restricted_mode
set_mode m word =
    if str_eq word "ask" || str_eq word "workspace" || str_eq word "autopilot"
    then some (record m { base_mode = word; mode = restricted_mode word m.profile_mode })
    else none

abbrev pub restricts : Rule → Bool
restricts r = str_eq r.action "prompt" || str_eq r.action "deny"

unfoldable pub set_restrictions : Manager → List Rule → Manager
set_restrictions m rules = record m { restrictions = keep restricts rules }

-- config.AgentPermissions, with its command patterns as regular expressions that compile or do not.
pub record Profile : Type 0 where
  pub mode : String
  pub denied_tools : List String
  pub denied_commands : List (Option Pattern)
  pub rules : List Rule

pub compile_all : List (Option Pattern) → Option (List Pattern)
compile_all [] = some []
compile_all (none ∷ ps) = none
compile_all (some p ∷ ps) = elim (compile_all ps) [ none ↦ none | some qs ↦ some (p ∷ qs) ]

unfoldable pub set_profile : Manager → Profile → Option Manager
unfolding restricted_mode compile_all
set_profile m p = elim (compile_all p.denied_commands) [
  | none ↦ none
  | some patterns ↦ some (record m {
    profile_mode = p.mode;
    mode = restricted_mode m.base_mode p.mode;
    profile_denied = p.denied_tools;
    profile_denied_commands = patterns;
    restrictions = keep restricts p.rules;
  })
]

pub data Kind : Type 0 where
  filesystem executable network server credential publishing : Kind

pub record Capability : Type 0 where
  pub kind : Kind
  pub values : List String
  pub unknown : Bool
  pub reasons : List String
  pub grantable : Bool
  pub granted : Bool

-- An element of the list of capabilities, or none.
abbrev when : Bool → Capability → List Capability
when b c = if b then c ∷ [] else []

module _ (classify : String → String) (m : Manager) (a : Action) where
  one_time : Bool
  unfolding one_time_only
  one_time =
      one_time_only a (credential_targets classify a m.protect_credentials)
        (publication_targets a m.publication)

  credential_grantable : Bool
  credential_grantable =
      str_eq m.protect_credentials "prompt" && not a.uninspectable && is_empty a.confirm_reasons

  publication_grantable : Bool
  publication_grantable =
      str_eq m.publication "prompt" && not a.uninspectable && is_empty a.confirm_reasons

  executable_grantable : Bool
  unfolding one_time
  executable_grantable = not one_time && not (is_empty a.executables)

  network_grantable : Bool
  unfolding one_time
  network_grantable = not one_time && not a.hosts_undetermined && not (is_empty a.hosts)

  -- Capabilities
  unfoldable pub capabilities : List Capability
  unfolding credential_grantable publication_grantable executable_grantable network_grantable
      covers_all covers_executables covers_network
  capabilities =
      let creds = credential_targets classify a m.protect_credentials in
      let pubs = publication_targets a m.publication in
      when (not (is_empty a.paths)) (record {
        kind = filesystem;
        values = a.paths;
        unknown = false;
        reasons = [];
        grantable = false;
        granted = false;
      })
      ++ when (not (is_empty creds)) (record {
        kind = credential;
        values = creds;
        unknown = false;
        reasons = [];
        grantable = credential_grantable;
        granted = credential_grantable && covers_all m.allowed_credentials creds;
      })
      ++ when (not (is_empty pubs)) (record {
        kind = publishing;
        values = pubs;
        unknown = false;
        reasons = [];
        grantable = publication_grantable;
        granted = publication_grantable && covers_all m.allowed_publications pubs;
      })
      ++ when (not (is_empty a.executables) || a.uninspectable) (record {
        kind = executable;
        values = a.executables;
        unknown = a.uninspectable;
        reasons = a.analysis_reasons;
        grantable = executable_grantable;
        granted = executable_grantable && covers_executables m a;
      })
      ++ when a.network (record {
        kind = network;
        values = a.hosts;
        unknown = a.hosts_undetermined;
        reasons = a.host_reasons;
        grantable = network_grantable;
        granted = network_grantable && covers_network m a;
      })
      ++ when (not (str_eq a.server "")) (record {
        kind = server;
        values = a.server ∷ [];
        unknown = false;
        reasons = [];
        grantable = false;
        granted = false;
      })

-- GrantableKinds
unfoldable pub grantable_kinds : List Capability → List Kind
grantable_kinds [] = []
grantable_kinds (c ∷ cs) =
    let rest = grantable_kinds cs in if c.grantable && not c.granted then c.kind ∷ rest else rest

module _ (classify : String → String) (a : Action) where
  -- One turn of the loop of applyGrants.
  unfoldable pub apply_grant : Manager → Kind → Manager
  apply_grant m executable =
      if a.uninspectable || not (is_empty a.confirm_reasons)
      then m
      else record m { allowed_commands = a.executables ++ m.allowed_commands }
  apply_grant m network =
      if a.hosts_undetermined || not (is_empty a.confirm_reasons)
      then m
      else record m { allowed_hosts = a.hosts ++ m.allowed_hosts }
  apply_grant m credential =
      if a.uninspectable
        || not (is_empty a.confirm_reasons)
        || not (str_eq m.protect_credentials "prompt")
      then m
      else record m {
        allowed_credentials =
            credential_targets classify a m.protect_credentials ++ m.allowed_credentials;
      }
  apply_grant m publishing =
      if a.uninspectable || not (is_empty a.confirm_reasons) || not (str_eq m.publication "prompt")
      then m
      else record m {
        allowed_publications = publication_targets a m.publication ++ m.allowed_publications;
      }
  apply_grant m _ = m

  unfoldable pub apply_grants : Manager → List Kind → Manager
  unfolding apply_grant
  apply_grants m [] = m
  apply_grants m (k ∷ ks) = apply_grants (apply_grant m k) ks
