-- ===== src/Permission/Defs.antt =====
-- The data of internal/permission/permission.go, and the Action of internal/tools/tools.go.
use Prim.Native.String.{◌++◌ as text_append}
use collomia.Common.{
  Bool, true, false, not, ◌&&◌, ◌||◌, List, [], ◌∷◌, ◌++◌, Option, none, some, String, any, all,
  keep, str_eq, is_empty, if◌then◌else◌, ◌==◌,
}
use collomia.Common.Text.{trim_space, codes}
use collomia.Policy.{Rule, Request, Decision}

-- tools.Risk
pub data Risk : Type 0 where
  read write execute external : Risk

abbrev pub is_read : Risk → Bool
is_read read = true
is_read _ = false

abbrev pub is_write : Risk → Bool
is_write write = true
is_write _ = false

abbrev pub is_execute : Risk → Bool
is_execute execute = true
is_execute _ = false

abbrev pub is_external : Risk → Bool
is_external external = true
is_external _ = false

pub record Action : Type 0 where
  pub risk : Risk
  pub outside : Bool
  pub paths : List String
  pub executables : List String
  pub operations : List String
  pub command : String
  pub hosts : List String
  pub network : Bool
  pub hosts_undetermined : Bool
  pub host_reasons : List String
  pub server : String
  pub uninspectable : Bool
  pub analysis_reasons : List String
  pub hard_deny_reasons : List String
  pub confirm_reasons : List String
  pub credential_targets : List String
  pub publication_targets : List String

-- A compiled regular expression: its text, and the strings that it matches.
pub record Pattern : Type 0 where
  pub text : String
  pub match_string : String → Bool

-- A map from names to `true`, as its keys.
abbrev pub Names : Type 0
Names = List String

abbrev pub has : Names → String → Bool
has names x = any (λ y. str_eq y x) names

pub record Manager : Type 0 where
  pub mode : String
  pub base_mode : String
  pub profile_mode : String
  pub allowed : Names
  pub denied : Names
  pub network : String
  pub commands : String
  pub protect_credentials : String
  pub publication : String
  pub allowed_commands : Names
  pub allowed_hosts : Names
  pub allowed_credentials : Names
  pub allowed_publications : Names
  pub profile_denied : Names
  pub profile_denied_commands : List Pattern
  pub allow_outside : Bool
  pub rules : List Rule
  pub restrictions : List Rule
  pub reviewer : String

-- Grant.Source
pub data Source : Type 0 where
  denied_tool agent_profile safety rule credentials publication session_scope implicit_read analysis
        posture session mode interactive reviewer :
      Source

-- Grant.Rule and the reason of a prompt, before they are rendered as text.
pub data Detail : Type 0 where
  nothing : Detail
  by_pattern : String → Detail
  by_rule : Decision → Detail
  by_restriction : Decision → Detail
  reasons : List String → Detail
  reaches : List String → Detail
  scope : List String → List String → Detail
  command_allowlist : List String → Detail
  network_unread : List String → Detail
  network_unnamed : Detail
  network_hosts : List String → Detail
  veto : String → Detail → Detail

pub record Grant : Type 0 where
  pub source : Source
  pub detail : Detail
  pub content : Option String

abbrev pub grant_of : Source → Detail → Grant
grant_of s d = record { source = s; detail = d; content = none }

pub data Outcome : Type 0 where
  allow prompt deny : Outcome

-- What the decision pipeline returns.
pub record Verdict : Type 0 where
  pub grant : Grant
  pub outcome : Outcome
  pub reason : Detail

-- An early return, or the code after it.
infixr 30 ◌otherwise◌
abbrev pub ◌otherwise◌ : Option Verdict → Verdict → Verdict
some v otherwise w = v
none otherwise w = w

abbrev pub stop : Source → Detail → Outcome → Detail → Option Verdict
stop s d o r = some (record { grant = grant_of s d; outcome = o; reason = r })

-- The request that the policy rules are held against.
unfoldable pub request_of : String → Action → Request
request_of tool a = record {
  tool = tool;
  paths = a.paths;
  executables = a.executables;
  operations = a.operations;
  hosts = a.hosts;
  server = a.server;
  network = a.network;
  hosts_undetermined = a.hosts_undetermined;
  inspectable = not a.uninspectable;
}

module _ (classify : String → String) where
  -- The targets of an action's declared paths that its own list does not name yet.
  path_targets : List String → Names → List String
  path_targets [] seen = []
  path_targets (p ∷ ps) seen =
      let label = classify p in
      let target = text_append (text_append label ": ") p in
      let fresh = not (str_eq label "") && not (has seen target) in
      let rest = path_targets ps (if fresh then target ∷ seen else seen) in
      if fresh then target ∷ rest else rest

  unfoldable pub credential_targets : Action → String → List String
  unfolding path_targets
  credential_targets a setting =
      if str_eq setting "off"
      then []
      else a.credential_targets ++ path_targets a.paths a.credential_targets

unfoldable pub publication_targets : Action → String → List String
publication_targets a setting = if str_eq setting "off" then [] else a.publication_targets

unfoldable pub one_time_only : Action → List String → List String → Bool
one_time_only a creds pubs =
    a.uninspectable
    || not (is_empty a.confirm_reasons)
    || not (is_empty creds)
    || not (is_empty pubs)

-- The trimmed pattern holds a character other than those of "*?/\".
unfoldable pub names_specific_path : String → Bool
unfolding trim_space
names_specific_path pattern =
    any (λ c. not (any (λ d. c == d) (codes "*?/\\"))) (trim_space (codes pattern))

-- The four session grants, as a snapshot reads them.
unfoldable pub covers_all : Names → List String → Bool
covers_all granted targets = not (is_empty targets) && all (has granted) targets

unfoldable pub outstanding : Names → List String → List String
outstanding granted targets = keep (λ t. not (has granted t)) targets

unfoldable pub covers_executables : Manager → Action → Bool
covers_executables m a = all (has m.allowed_commands) a.executables

unfoldable pub covers_network : Manager → Action → Bool
covers_network m a =
    if not a.network
    then true
    else if a.hosts_undetermined || is_empty a.hosts
    then false
    else all (has m.allowed_hosts) a.hosts

unfoldable pub cover : Manager → Action → Bool
unfolding covers_executables covers_network
cover m a =
    if a.uninspectable || not (is_empty a.confirm_reasons)
    then false
    else if is_empty a.executables && not a.network
    then false
    else covers_executables m a && covers_network m a

-- posturePrompt; `none` is the empty reason.
unfoldable pub posture_prompt : Action → String → String → Option Detail
posture_prompt a network commands =
    if str_eq commands "allowlist" && is_execute a.risk && not (is_empty a.executables)
    then some (command_allowlist a.executables)
    else if str_eq network "scoped" && a.network
    then (if a.hosts_undetermined
        then some (network_unread a.host_reasons)
        else if is_empty a.hosts
        then some network_unnamed
        else some (network_hosts a.hosts))
    else none
