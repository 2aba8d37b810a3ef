-- ===== src/Permission/Tests.antt =====
-- Runs of the permission pipeline of internal/permission/permission.go on concrete actions, and the
-- theorems there.
use collomia.Common.{
  true, false, [], ◌∷◌, none, some, All, ◌≡◌, ◌≢◌, refl, inl, ◌⊎◌, ◌≤◌, is_empty, eq_iff, arith,
}
use collomia.Policy.{Decision, evaluate}
use collomia.Permission.Defs.{
  Manager, has, allow, deny, credential_targets, publication_targets, names_specific_path, is_read,
  request_of,
}
use collomia.Permission.Decide.{decide, decide_base, before_rules}
use collomia.Permission.Decide.Granted.{AllGranted}
use collomia.Permission.Decide.Sanctions.{Sanction, decide-Sanction}
use collomia.Permission.Decide.Safety.{
  strictness, decide-IsBarred, decide_tightens, decide-credentials, decide-uninspectable,
  decide-granted_credentials,
}
use collomia.Permission.Decide.Posture.{PostureExempt, decide-scoped_network}
use collomia.Permission.Session.{
  executable, network, apply_grants, capabilities, grantable_kinds, rank, restricts, set_mode,
  restricted_mode,
}
use collomia.Permission.Session.Grants.{OnlyShown, apply_grants-OnlyShown}
use collomia.Permission.Authorize.{
  Prompt, Choice, Answer, chose, unreadable, Session, authorize, remember, reviewer_veto,
}
use collomia.Permission.Authorize.Laws.{IsAllowedBy, authorize_approved}
use collomia.Permission.Reachable.{IsKept, IsRestricted, Reach, here, next, mode, Reach-restricted}
use collomia.Permission.Samples.{
  pipeline, classify, base, fetch, opaque_read, fetch_allowed, opaque_allowed,
}

decide-Sanction_example :
    Sanction base "run_command" fetch
      (credential_targets classify fetch "prompt")
      (publication_targets fetch "prompt")
decide-Sanction_example = decide-Sanction classify base "run_command" fetch fetch_allowed

decide-IsBarred_example : (decide classify base "web_fetch" fetch).outcome ≡ deny
decide-IsBarred_example = decide-IsBarred classify base "web_fetch" fetch (inl refl)

abbrev restricted : Manager
restricted = record base {
  restrictions =
      record {
        action = "deny";
        tool = "run_*";
        path = "";
        command = "";
        host = "";
        server = "";
        note = "";
      }
      ∷ [];
}

decide_tightens_example :
    (strictness (decide_base classify restricted "run_command" fetch).outcome
      ≤ strictness (decide classify restricted "run_command" fetch).outcome)
    × ((decide_base classify restricted "run_command" fetch).outcome ≡ deny
        → decide classify restricted "run_command" fetch
          ≡ decide_base classify restricted "run_command" fetch)
decide_tightens_example = decide_tightens classify restricted "run_command" fetch

decide-credentials_example :
    ((d : Decision) × (evaluate [] (request_of "run_command" opaque_read) ≡ some d)
      × (d.rule.action ≡ "allow")
      × (names_specific_path d.rule.path ≡ true))
    ⊎ ((base.protect_credentials ≢ "deny")
        × AllGranted base.allowed_credentials (credential_targets classify opaque_read "prompt"))
unfolding credential_targets
decide-credentials_example =
    decide-credentials classify base "run_command" opaque_read refl opaque_allowed

decide-uninspectable_example :
    ((is_empty (credential_targets classify opaque_read "prompt") ≡ false)
      × AllGranted base.allowed_credentials (credential_targets classify opaque_read "prompt"))
    ⊎ ((is_empty (publication_targets opaque_read "prompt") ≡ false)
        × AllGranted base.allowed_publications (publication_targets opaque_read "prompt"))
decide-uninspectable_example =
    decide-uninspectable classify base "run_command" opaque_read refl refl opaque_allowed

prompt-ne-deny : base.protect_credentials ≢ "deny"
prompt-ne-deny = ground (arith, eq_iff "prompt" "deny")

decide-granted_credentials_example :
    (decide classify base "run_command" opaque_read).outcome ≡ allow
unfolding pipeline before_rules
decide-granted_credentials_example =
    decide-granted_credentials classify base "run_command" opaque_read refl prompt-ne-deny
      (refl, tt) refl refl refl

decide-scoped_network_example :
    PostureExempt classify base "run_command" fetch
    ⊎ ((fetch.hosts_undetermined ≡ false)
        × (is_empty fetch.hosts ≡ false)
        × AllGranted base.allowed_hosts fetch.hosts)
decide-scoped_network_example =
    decide-scoped_network classify base "run_command" fetch refl refl fetch_allowed

abbrev fresh : Manager
fresh = record base { allowed_commands = []; allowed_hosts = [] }

kinds_offered : grantable_kinds (capabilities classify fresh fetch) ≡ executable ∷ network ∷ []
unfolding pipeline
kinds_offered = refl

apply_grants-OnlyShown_example :
    OnlyShown classify fetch fresh (apply_grants classify fetch fresh (executable ∷ network ∷ []))
apply_grants-OnlyShown_example =
    apply_grants-OnlyShown classify fetch fresh (executable ∷ network ∷ [])

abbrev agree : Prompt → Answer
agree p =
    chose
      (record { allow = true; always = true; grants = executable ∷ network ∷ []; content = none })

abbrev start : Session
start = record { manager = fresh; ledger = [] }

agreed : (authorize classify "run_command" fetch start (some agree) unreadable).error ≡ none
unfolding pipeline
agreed = refl

authorize_approved_example :
    (((decide classify fresh "run_command" fetch).outcome ≡ allow)
      × ((is_read fetch.risk ≡ true) ⊎ (reviewer_veto fresh unreadable ≡ none))
      × ((authorize classify "run_command" fetch start (some agree) unreadable).session.manager
          ≡ fresh))
    ⊎ IsAllowedBy classify "run_command" fetch start
        (some agree)
        (authorize classify "run_command" fetch start (some agree) unreadable)
authorize_approved_example =
    authorize_approved classify "run_command" fetch start (some agree) unreadable agreed

barred : (decide classify fresh "web_fetch" fetch).outcome ≡ deny
barred = decide-IsBarred classify fresh "web_fetch" fetch (inl refl)

abbrev always : Choice
always = record { allow = true; always = true; grants = []; content = none }

remembered : has (remember classify "run_command" fetch fresh always).allowed "run_command" ≡ true
unfolding remember pipeline
remembered = refl

abbrev cautious : Manager
cautious = record base { base_mode = "ask"; mode = "ask" }

to_ask : Reach classify base cautious
unfolding set_mode
to_ask = next here (mode "ask" refl)

base-IsRestricted : IsRestricted base
unfolding restricted_mode
base-IsRestricted = record { mode = refl; layer = tt }

Reach-restricted_example :
    IsKept base cautious
    × (rank cautious.mode ≤ rank cautious.base_mode)
    × (cautious.profile_mode ≢ "" → rank cautious.mode ≤ rank cautious.profile_mode)
    × All (λ r. restricts r ≡ true) cautious.restrictions
Reach-restricted_example = Reach-restricted classify base cautious base-IsRestricted to_ask
