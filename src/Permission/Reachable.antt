-- ===== src/Permission/Reachable.antt =====
-- The states that a permission manager of internal/permission/permission.go can reach: any order of
-- SetMode, SetProfile, SetRestrictions and Authorize, with any answers of the environment.
use collomia.Common.{
  true, not, ◌&&◌, List, [], ◌∷◌, Option, some, String, All, keep, ◌≡◌, ◌≢◌, inl, inr, arith,
  Bool-cases, Option-cases, ◌∙◌, ◌≤◌, eq_iff, subst,
}
use collomia.Policy.{Rule}
use collomia.Permission.Defs.{Action, Manager}
use collomia.Permission.Session.{
  Kind, executable, apply_grant, apply_grants, rank, restricted_mode, set_mode, restricts,
  set_restrictions, Profile, compile_all, set_profile,
}
use collomia.Permission.Authorize.{
  Prompt, Choice, Answer, Review, Session, authorize, remember, one_time,
}
use collomia.Permission.Authorize.Laws.{authorize_approved, authorize_logs}

-- What no operation changes: the configured policy.
pub record IsKept (m n : Manager) : Type 0 where
  pub denied : n.denied ≡ m.denied
  pub rules : n.rules ≡ m.rules
  pub outside : n.allow_outside ≡ m.allow_outside
  pub network : n.network ≡ m.network
  pub commands : n.commands ≡ m.commands
  pub credentials : n.protect_credentials ≡ m.protect_credentials
  pub publication : n.publication ≡ m.publication
  pub reviewer : n.reviewer ≡ m.reviewer

-- The mode in force is the stricter of the user's and the profile's, and the restriction layer has
-- only rules that prompt or deny.
pub record IsRestricted (m : Manager) : Type 0 where
  pub mode : m.mode ≡ restricted_mode m.base_mode m.profile_mode
  pub layer : All (λ r. restricts r ≡ true) m.restrictions

-- The parts that grants leave alone.
pub record SameModes (m n : Manager) : Type 0 where
  pub mode : n.mode ≡ m.mode
  pub base : n.base_mode ≡ m.base_mode
  pub profile : n.profile_mode ≡ m.profile_mode
  pub layer : n.restrictions ≡ m.restrictions

IsKept-trans : (l m n : Manager) → IsKept l m → IsKept m n → IsKept l n
IsKept-trans l m n p q = record {
  denied = q.denied ∙ p.denied;
  rules = q.rules ∙ p.rules;
  outside = q.outside ∙ p.outside;
  network = q.network ∙ p.network;
  commands = q.commands ∙ p.commands;
  credentials = q.credentials ∙ p.credentials;
  publication = q.publication ∙ p.publication;
  reviewer = q.reviewer ∙ p.reviewer;
}

keep-restricts : (rs : List Rule) → All (λ r. restricts r ≡ true) (keep restricts rs)
keep-restricts [] = tt
keep-restricts (r ∷ rs) = elim (Bool-cases (restricts r)) [
  | inl e ↦ rw e (e, keep-restricts rs)
  | inr e ↦ rw e (keep-restricts rs)
]

set_mode_step :
    (m n : Manager) (w : String)
    → set_mode m w ≡ some n
    → IsKept m n × (IsRestricted m → IsRestricted n)
unfolding set_mode
set_mode_step m n w h = (ground arith, λ r. ground arith)

set_restrictions_step :
    (m : Manager) (rs : List Rule)
    → IsKept m (set_restrictions m rs) × (IsRestricted m → IsRestricted (set_restrictions m rs))
unfolding set_restrictions
set_restrictions_step m rs =
    (ground arith, λ r. record { mode = r.mode; layer = keep-restricts rs })

set_profile_step :
    (m n : Manager) (p : Profile) → set_profile m p ≡ some n → IsKept m n × IsRestricted n
unfolding set_profile
set_profile_step m n p h = elim (Option-cases (compile_all p.denied_commands)) [
  | inl e ↦ absurd (ground arith)
  | inr (ps, e) ↦ (
    ground arith,
    record {
      mode = ground arith;
      layer =
          let same : n.restrictions ≡ keep restricts p.rules = ground arith in
          rw same (keep-restricts p.rules);
    },
  )
]

module _ (classify : String → String) (a : Action) where
  apply_grant_step :
      (m : Manager) (k : Kind)
      → IsKept m (apply_grant classify a m k) × SameModes m (apply_grant classify a m k)
  unfolding apply_grant
  apply_grant_step m executable = (ground arith, ground arith)
  apply_grant_step m _ = (ground arith, ground arith)

  SameModes-trans : (l m n : Manager) → SameModes l m → SameModes m n → SameModes l n
  SameModes-trans l m n p q = record {
    mode = q.mode ∙ p.mode;
    base = q.base ∙ p.base;
    profile = q.profile ∙ p.profile;
    layer = q.layer ∙ p.layer;
  }

  apply_grants_step :
      (m : Manager) (ks : List Kind)
      → IsKept m (apply_grants classify a m ks) × SameModes m (apply_grants classify a m ks)
  unfolding apply_grants
  apply_grants_step m [] = (ground arith, ground arith)
  apply_grants_step m (k ∷ ks) =
      let (kept, same) = apply_grant_step m k in
      let (kept', same') = apply_grants_step (apply_grant classify a m k) ks in
      (
        IsKept-trans m (apply_grant classify a m k) (apply_grants classify a m (k ∷ ks)) kept kept',
        SameModes-trans m (apply_grant classify a m k) (apply_grants classify a m (k ∷ ks)) same
            same',
      )

  SameModes-IsRestricted : (m n : Manager) → SameModes m n → IsRestricted m → IsRestricted n
  SameModes-IsRestricted m n s r = record { mode = ground arith; layer = rw s.layer r.layer }

  remember_step :
      (tool : String) (m : Manager) (choice : Choice)
      → IsKept m (remember classify tool a m choice)
        × SameModes m (remember classify tool a m choice)
  unfolding remember
  remember_step tool m choice =
      elim (Bool-cases (choice.always && not (one_time classify tool a m))) [
        | inl y ↦
            let (kept, same) =
              apply_grants_step (record m { allowed = tool ∷ m.allowed }) choice.grants in
            (ground arith, ground arith)
        | inr n ↦
            let (kept, same) = apply_grants_step m choice.grants in (ground arith, ground arith)
      ]

  authorize_step :
      (tool : String) (s : Session) (approver : Option (Prompt → Answer)) (review : Review)
      → IsKept s.manager (authorize classify tool a s approver review).session.manager
        × SameModes s.manager (authorize classify tool a s approver review).session.manager
  authorize_step tool s approver review =
      let r = authorize classify tool a s approver review in
      let (entry, _, _, _, _, unchanged) = authorize_logs classify tool a s approver review in
      elim (Option-cases r.error) [
        | inr (e, q) ↦
            let same : r.session.manager ≡ s.manager = unchanged (λ z. cc) in
            (ground arith, ground arith)
        | inl q ↦ elim (authorize_approved classify tool a s approver review q) [
          | inl (_, _, same) ↦ (ground arith, ground arith)
          | inr person ↦
              let (kept, same) = remember_step tool s.manager person.choice in
              rw person.remembered (kept, same)
        ]
      ]

-- One operation on the manager.
pub data Step (classify : String → String) : Manager → Manager → Type 0 where
  mode : {m n : Manager} (word : String) → set_mode m word ≡ some n → Step classify m n
  profile : {m n : Manager} (p : Profile) → set_profile m p ≡ some n → Step classify m n
  restrict : (m : Manager) (rs : List Rule) → Step classify m (set_restrictions m rs)
  act :
      {m : Manager} (tool : String) (a : Action) (s : Session) (approver : Option (Prompt → Answer))
      (review : Review)
      → s.manager ≡ m
      → Step classify m (authorize classify tool a s approver review).session.manager

pub data Reach (classify : String → String) (m : Manager) : Manager → Type 0 where
  here : Reach classify m m
  next : {n o : Manager} → Reach classify m n → Step classify n o → Reach classify m o

module _ (classify : String → String) where
  Step-sound : {m n : Manager} → Step classify m n → IsKept m n × (IsRestricted m → IsRestricted n)
  Step-sound (mode {m} {n} word h) = set_mode_step m n word h
  Step-sound (profile {m} {n} p h) =
      let (kept, sound) = set_profile_step m n p h in (kept, λ _. sound)
  Step-sound (restrict m rs) = set_restrictions_step m rs
  Step-sound (act {m} tool a s approver review e) =
      let (kept, same) = authorize_step classify a tool s approver review in
      let n = (authorize classify tool a s approver review).session.manager in
      (
        subst (λ k. IsKept k n) e kept,
        λ r. SameModes-IsRestricted classify a s.manager n same (rw e r),
      )

  Reach-sound :
      {m n : Manager} → Reach classify m n → IsKept m n × (IsRestricted m → IsRestricted n)
  Reach-sound {m} here = (ground arith, λ r. r)
  Reach-sound {m} (next {n} {o} r s) =
      let (kept, sound) = Reach-sound r in
      let (kept', sound') = Step-sound s in (IsKept-trans m n o kept kept', λ i. sound' (sound i))

-- The mode in force ranks no higher than the user's, nor than the profile's where there is one.
IsRestricted-rank :
    (m : Manager)
    → IsRestricted m
    → (rank m.mode ≤ rank m.base_mode) × (m.profile_mode ≢ "" → rank m.mode ≤ rank m.profile_mode)
unfolding restricted_mode
IsRestricted-rank m r = (ground arith, λ n. ground (arith, eq_iff m.profile_mode ""))

-- From a manager whose mode is restricted as described, no sequence of mode changes, profiles,
-- restrictions and authorizations, with any answers of approver and reviewer, changes the configured
-- policy. The mode in force never ranks above the user's, nor above the profile's where there is
-- one, and the restriction layer holds only rules that prompt or deny.
pub Reach-restricted :
    (classify : String → String) (m n : Manager)
    → IsRestricted m
    → Reach classify m n
    → IsKept m n
      × (rank n.mode ≤ rank n.base_mode)
      × (n.profile_mode ≢ "" → rank n.mode ≤ rank n.profile_mode)
      × All (λ r. restricts r ≡ true) n.restrictions
Reach-restricted classify m n i r =
    let (kept, sound) = Reach-sound classify r in
    let (user, profiled) = IsRestricted-rank n (sound i) in (kept, user, profiled, (sound i).layer)
