-- ===== src/Permission/Session/OffersKept.antt =====
-- After every offered grant is picked, Capabilities offers nothing more
-- (internal/permission/permission.go).
use collomia.Common.{
  Bool, true, false, not, ◌&&◌, ◌||◌, List, [], ◌∷◌, ◌++◌, String, any, is_empty, ◌≡◌, inl, inr,
  refl, arith, Bool-cases, ◌∙◌,
}
use collomia.Permission.Defs.{
  Action, Manager, credential_targets, publication_targets, covers_all, covers_executables,
  covers_network,
}
use collomia.Permission.Session.{
  Kind, executable, network, credential, publishing, filesystem, Capability, when, capabilities,
  grantable_kinds, apply_grants, one_time, executable_grantable, network_grantable,
  credential_grantable, publication_grantable,
}
use collomia.Permission.Session.Grants.{
  same_credentials as credentials_setting, same_publication as publication_setting,
  apply_grants-OnlyShown,
}
use collomia.Permission.Session.Offers.{
  same_kind, held, recordable, apply_grants-held, apply_grants-held_mono,
}

offered : Kind → List Capability → Bool
unfolding grantable_kinds
offered k cs = any (same_kind k) (grantable_kinds cs)

offered-append :
    (k : Kind) (xs ys : List Capability) → offered k (xs ++ ys) ≡ (offered k xs || offered k ys)
unfolding offered
offered-append k [] ys = refl
offered-append k (c ∷ xs) ys = ground (arith, offered-append k xs ys)

offered-when :
    (k : Kind) (b : Bool) (c : Capability)
    → offered k (when b c) ≡ (same_kind k c.kind && c.grantable && not c.granted && b)
unfolding offered
offered-when k b c = ground arith

same_kind_refl : (k : Kind) → same_kind k k ≡ true
same_kind_refl filesystem = refl
same_kind_refl _ = refl

grantable_kinds-empty :
    (cs : List Capability) → ((k : Kind) → offered k cs ≡ false) → grantable_kinds cs ≡ []
unfolding offered grantable_kinds
grantable_kinds-empty [] h = refl
grantable_kinds-empty (c ∷ cs) h = elim (Bool-cases (c.grantable && not c.granted)) [
  | inl e ↦ absurd (ground (arith, h c.kind, same_kind_refl c.kind))
  | inr e ↦ rw e (grantable_kinds-empty cs (λ k. ground (arith, h k)))
]

module _ (classify : String → String) (m : Manager) (a : Action) where
  -- Whether a kind is offered, read off the six capabilities.
  is_offered : Kind → Bool
  is_offered executable =
      executable_grantable classify m a
      && not (executable_grantable classify m a && covers_executables m a)
      && (not (is_empty a.executables) || a.uninspectable)
  is_offered network =
      network_grantable classify m a
      && not (network_grantable classify m a && covers_network m a)
      && a.network
  is_offered credential =
      let creds = credential_targets classify a m.protect_credentials in
      credential_grantable classify m a
      && not (credential_grantable classify m a && covers_all m.allowed_credentials creds)
      && not (is_empty creds)
  is_offered publishing =
      let pubs = publication_targets a m.publication in
      publication_grantable classify m a
      && not (publication_grantable classify m a && covers_all m.allowed_publications pubs)
      && not (is_empty pubs)
  is_offered _ = false

  offered-capabilities : (k : Kind) → offered k (capabilities classify m a) ≡ is_offered k
  unfolding capabilities is_offered
  offered-capabilities executable = simp (offered-append, offered-when) (ground arith)
  offered-capabilities _ = simp (offered-append, offered-when) (ground arith)

module _ (classify : String → String) (m : Manager) (a : Action) where
  abbrev picked : List Kind
  picked = grantable_kinds (capabilities classify m a)

  abbrev after : Manager
  after = apply_grants classify a m picked

  held_after :
      (k : Kind)
      → recordable classify a m k ≡ true
      → (held classify a m k ≡ false → is_offered classify m a k ≡ true)
      → held classify a after k ≡ true
  unfolding offered
  held_after k r o = elim (Bool-cases (held classify a m k)) [
    | inl e ↦ apply_grants-held_mono classify a m picked k e
    | inr e ↦ apply_grants-held classify a m picked k r (offered-capabilities classify m a k ∙ o e)
  ]

  same_credentials : after.protect_credentials ≡ m.protect_credentials
  same_credentials = credentials_setting classify a m _ (apply_grants-OnlyShown classify a m picked)

  same_publication : after.publication ≡ m.publication
  same_publication = publication_setting classify a m _ (apply_grants-OnlyShown classify a m picked)

  kept : (k : Kind) → is_offered classify after a k ≡ false
  unfolding is_offered executable_grantable network_grantable credential_grantable
      publication_grantable one_time covers_executables covers_network covers_all
  kept executable = ground (arith, held_after executable, same_credentials, same_publication)
  kept network = ground (arith, held_after network, same_credentials, same_publication)
  kept credential = ground (arith, held_after credential, same_credentials, same_publication)
  kept publishing = ground (arith, held_after publishing, same_credentials, same_publication)
  kept _ = refl

  -- Once every grant that the prompt offers is picked, nothing is left to offer: each offered
  -- dimension of the action is covered by the session's grants.
  pub capabilities_kept :
      grantable_kinds (
        capabilities classify
          (apply_grants classify a m (grantable_kinds (capabilities classify m a)))
          a)
      ≡ []
  capabilities_kept =
      grantable_kinds-empty (capabilities classify after a)
        (λ k. offered-capabilities classify after a k ∙ kept k)
