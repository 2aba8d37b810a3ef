-- ===== src/Permission/Authorize/Laws.antt =====
-- What Authorize of internal/permission/permission.go guarantees of its result and of the state.
use collomia.Common.{
  true, false, not, ◌&&◌, List, [], ◌∷◌, Option, none, some, String, is_empty, if◌then◌else◌, ◌≡◌,
  ◌≢◌, ◌⊎◌, ◌↔◌, inl, inr, refl, arith, Bool-cases, eq_iff, ◌∙◌,
}
use collomia.Permission.Defs.{
  is_read, Action, has, Manager, Detail, Grant, Outcome, Verdict, allow, prompt, deny, interactive,
  credential_targets, publication_targets, one_time_only,
}
use collomia.Permission.Decide.{decide}
use collomia.Permission.Session.{Kind, capabilities, apply_grant, apply_grants}
use collomia.Permission.Authorize.{
  Prompt, Choice, Answer, failed, chose, Review, Entry, Session, Authorized, reviewer_veto,
  prompt_of, remember, ask, authorize, settle, reply, one_time,
}

module _ (classify : String → String) (tool : String) (a : Action) where
  -- A person was shown the action, with the reach that it has, and allowed it.
  pub record IsAllowedBy (s : Session) (approver : Option (Prompt → Answer)) (r : Authorized)
      : Type 0 where
    pub person : Prompt → Answer
    pub present : approver ≡ some person
    pub shown : Prompt
    pub choice : Choice
    pub answered : person shown ≡ chose choice
    pub allowed : choice.allow ≡ true
    pub action : shown.action ≡ a
    pub reach : shown.capabilities ≡ capabilities classify s.manager a
    pub remembered : r.session.manager ≡ remember classify tool a s.manager choice

  -- One entry more, whose flag says whether the action was approved; a refused action leaves the
  -- manager as it was.
  abbrev pub IsLogged : Session → Authorized → Type 0
  IsLogged s r =
      (e : Entry) × (r.session.ledger ≡ e ∷ s.ledger)
      × (e.action ≡ a)
      × (e.grant ≡ r.grant)
      × ((e.allowed ≡ true) ↔ (r.error ≡ none))
      × (r.error ≢ none → r.session.manager ≡ s.manager)

  module _ (s : Session) (approver : Option (Prompt → Answer)) where
    ask-IsAllowedBy :
        (o : Option (Prompt → Answer)) (g : Grant) (reason : Detail)
        → approver ≡ o
        → (ask classify tool a s o g reason).error ≡ none
        → IsAllowedBy s approver (ask classify tool a s o g reason)
    unfolding ask reply prompt_of
    ask-IsAllowedBy none g reason e h = cc
    ask-IsAllowedBy (some person) g reason e h =
        go (person (prompt_of classify tool a s.manager g reason)) refl
      where
        go :
            (x : Answer)
            → person (prompt_of classify tool a s.manager g reason) ≡ x
            → IsAllowedBy s approver (ask classify tool a s (some person) g reason)
        go (failed why) q = absurd (ground arith)
        go (chose c) q = elim (Bool-cases c.allow) [
          | inl y ↦ record {
            person = person;
            present = e;
            shown = prompt_of classify tool a s.manager g reason;
            choice = c;
            answered = q;
            allowed = y;
            action = refl;
            reach = refl;
            remembered = ground arith;
          }
          | inr n ↦ absurd (ground arith)
        ]

  module _ (s : Session) (approver : Option (Prompt → Answer)) (v : Verdict) where
    settle_approved :
        (o : Outcome) (why : Option String)
        → (settle classify tool a s approver v o why).error ≡ none
        → ((o ≡ allow)
            × (why ≡ none)
            × ((settle classify tool a s approver v o why).session.manager ≡ s.manager))
          ⊎ IsAllowedBy s approver (settle classify tool a s approver v o why)
    unfolding settle
    settle_approved deny why h = cc
    settle_approved prompt why h = inr (ask-IsAllowedBy s approver approver _ _ refl h)
    settle_approved allow (some why) h = inr (ask-IsAllowedBy s approver approver _ _ refl h)
    settle_approved allow none h = inl (refl, refl, refl)

  -- An authorization that succeeds was decided by the pipeline, with no veto of the reviewer on an
  -- action that does more than read, and leaves the manager as it was; or a person who was shown
  -- the action and its reach allowed it, and only that choice is remembered.
  pub authorize_approved :
      (s : Session) (approver : Option (Prompt → Answer)) (review : Review)
      → (authorize classify tool a s approver review).error ≡ none
      → (((decide classify s.manager tool a).outcome ≡ allow)
          × ((is_read a.risk ≡ true) ⊎ (reviewer_veto s.manager review ≡ none))
          × ((authorize classify tool a s approver review).session.manager ≡ s.manager))
        ⊎ IsAllowedBy s approver (authorize classify tool a s approver review)
  unfolding authorize
  authorize_approved s approver review h =
      let v = decide classify s.manager tool a in
      let why : Option String = if is_read a.risk then none else reviewer_veto s.manager review in
      elim (settle_approved s approver v v.outcome why h) [
        | inl (o, w, k) ↦ inl (o, ground arith, k)
        | inr p ↦ inr p
      ]

  reply_log : (s : Session) (g : Grant) (x : Answer) → IsLogged s (reply classify tool a s g x)
  unfolding reply
  reply_log s g (failed why) = ground arith
  reply_log s g (chose c) = (
    record {
      tool = tool;
      action = a;
      allowed = c.allow;
      grant = record { source = interactive; detail = g.detail; content = c.content };
    },
    ground arith,
    ground arith,
    ground arith,
    ground arith,
    ground arith,
  )

  ask_log :
      (s : Session) (approver : Option (Prompt → Answer)) (g : Grant) (reason : Detail)
      → IsLogged s (ask classify tool a s approver g reason)
  unfolding ask
  ask_log s none g reason = ground arith
  ask_log s (some person) g reason =
      reply_log s g (person (prompt_of classify tool a s.manager g reason))

  settle_log :
      (s : Session) (approver : Option (Prompt → Answer)) (v : Verdict) (o : Outcome)
      (why : Option String)
      → IsLogged s (settle classify tool a s approver v o why)
  unfolding settle
  settle_log s approver v deny why = ground arith
  settle_log s approver v prompt why = ask_log s approver _ _
  settle_log s approver v allow (some why) = ask_log s approver _ _
  settle_log s approver v allow none = ground arith

  -- Every authorization appends one entry to the audit ledger, which holds the action, the grant
  -- that is returned and whether the action was approved; a refusal leaves the manager as it was.
  pub authorize_logs :
      (s : Session) (approver : Option (Prompt → Answer)) (review : Review)
      → IsLogged s (authorize classify tool a s approver review)
  unfolding authorize
  authorize_logs s approver review =
      let v = decide classify s.manager tool a in
      settle_log s approver v v.outcome
        (if is_read a.risk then none else reviewer_veto s.manager review)

  settle_denied :
      (s : Session) (approver approver' : Option (Prompt → Answer)) (v : Verdict) (o : Outcome)
      (why why' : Option String)
      → o ≡ deny
      → (settle classify tool a s approver v o why ≡ settle classify tool a s approver' v o why')
        × ((settle classify tool a s approver v o why).error ≢ none)
  unfolding settle
  settle_denied s p q v deny why why' e = (refl, cc)
  settle_denied s p q v prompt why why' e = absurd (cc)
  settle_denied s p q v allow why why' e = absurd (cc)

  -- What the pipeline denies is refused, whatever an approver or a reviewer would answer: neither is
  -- consulted.
  pub authorize_denied :
      (s : Session) (approver approver' : Option (Prompt → Answer)) (review review' : Review)
      → (decide classify s.manager tool a).outcome ≡ deny
      → (authorize classify tool a s approver review
          ≡ authorize classify tool a s approver' review')
        × ((authorize classify tool a s approver review).error ≢ none)
  unfolding authorize
  authorize_denied s p q review review' e =
      settle_denied s p q (decide classify s.manager tool a)
        (decide classify s.manager tool a).outcome _ _ e

  apply_grant-allowed : (m : Manager) (k : Kind) → (apply_grant classify a m k).allowed ≡ m.allowed
  unfolding apply_grant
  apply_grant-allowed m Kind.executable = ground arith
  apply_grant-allowed m _ = ground arith

  apply_grants-allowed :
      (m : Manager) (kinds : List Kind) → (apply_grants classify a m kinds).allowed ≡ m.allowed
  unfolding apply_grants
  apply_grants-allowed m [] = refl
  apply_grants-allowed m (k ∷ ks) =
      apply_grants-allowed (apply_grant classify a m k) ks ∙ apply_grant-allowed m k

  -- A tool-wide grant that a choice leaves behind was there before, or is for the tool at hand,
  -- was asked for, and the action was an inspected one with no mandatory confirmation that reaches
  -- no credential store and publishes nothing.
  pub remember-allowed :
      (m : Manager) (choice : Choice) (x : String)
      → has (remember classify tool a m choice).allowed x ≡ true
      → (has m.allowed x ≡ true)
        ⊎ ((x ≡ tool)
            × (choice.always ≡ true)
            × (a.uninspectable ≡ false)
            × (is_empty a.confirm_reasons ≡ true)
            × (is_empty (credential_targets classify a m.protect_credentials) ≡ true)
            × (is_empty (publication_targets a m.publication) ≡ true))
  unfolding remember one_time_only
  remember-allowed m choice x h =
      elim (Bool-cases (choice.always && not (one_time classify tool a m))) [
        | inl y ↦ ground (
          arith,
          eq_iff tool x,
          apply_grants-allowed (record m { allowed = tool ∷ m.allowed }) choice.grants,
        )
        | inr n ↦ ground (arith, apply_grants-allowed m choice.grants)
      ]
