-- ===== src/Permission/Samples.antt =====
-- A manager and actions of internal/permission/permission.go, and runs of the pipeline on them.
use collomia.Common.{true, false, [], ◌∷◌, String, ◌≡◌, refl}
use collomia.Policy.{evaluate}
use collomia.Permission.Defs.{
  Action, Manager, allow, prompt, execute, credential_targets, publication_targets, request_of,
}
use collomia.Permission.Decide.{decide, decide_base}
use collomia.Permission.Session.{apply_grants, capabilities, grantable_kinds}
use collomia.Permission.Authorize.{authorize}

unfoldable pub pipeline : Unit {0}
unfolding decide decide_base evaluate request_of credential_targets publication_targets authorize
    capabilities grantable_kinds apply_grants
pipeline = tt

abbrev pub classify : String → String
classify p = "environment file"

abbrev pub base : Manager
base = record {
  mode = "autopilot";
  base_mode = "autopilot";
  profile_mode = "";
  allowed = [];
  denied = "web_fetch" ∷ [];
  network = "scoped";
  commands = "allowlist";
  protect_credentials = "prompt";
  publication = "prompt";
  allowed_commands = "curl" ∷ [];
  allowed_hosts = "example.com" ∷ [];
  allowed_credentials = "environment file: /w/.env" ∷ [];
  allowed_publications = [];
  profile_denied = [];
  profile_denied_commands = [];
  allow_outside = false;
  rules = [];
  restrictions = [];
  reviewer = "";
}

-- `curl example.com`
abbrev pub fetch : Action
fetch = record {
  risk = execute;
  outside = false;
  paths = [];
  executables = "curl" ∷ [];
  operations = [];
  command = "curl example.com";
  hosts = "example.com" ∷ [];
  network = true;
  hosts_undetermined = false;
  host_reasons = [];
  server = "";
  uninspectable = false;
  analysis_reasons = [];
  hard_deny_reasons = [];
  confirm_reasons = [];
  credential_targets = [];
  publication_targets = [];
}

-- A command that cannot be analysed, and reaches the granted credential store.
abbrev pub opaque_read : Action
opaque_read = record fetch {
  uninspectable = true;
  credential_targets = "environment file: /w/.env" ∷ [];
  confirm_reasons = "rm -rf build" ∷ [];
}

pub fetch_allowed : (decide classify base "run_command" fetch).outcome ≡ allow
unfolding pipeline
fetch_allowed = refl

-- The same command prompts where its host was not granted.
pub other_host_prompts :
    (decide classify (record base { allowed_hosts = [] }) "run_command" fetch).outcome ≡ prompt
unfolding pipeline
other_host_prompts = refl

pub opaque_allowed : (decide classify base "run_command" opaque_read).outcome ≡ allow
unfolding pipeline
opaque_allowed = refl

-- With the protection off the same command is not approved without a person.
pub opaque_prompts :
    (decide classify
      (record base { protect_credentials = "off" })
      "run_command"
      opaque_read).outcome
    ≡ prompt
unfolding pipeline
opaque_prompts = refl
