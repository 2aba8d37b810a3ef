-- ===== src/DiffModel/Restore/Writes.antt =====
-- internal/diffmodel/diff.go, RestoreTo: the check and the writes, on files that are as the agent
-- left them.
use collomia.Common.{
  ℕ, true, false, ◌&&◌, List, [], ◌∷◌, Option, none, some, ◌≡◌, refl, ap, subst, ◌∙◌, All,
  Bool-cases, inl, inr, ==_iff,
}
use collomia.Common.Text.{Codes, text_eq, text_eq→eq, text_eq_refl}
use collomia.DiffModel.Data.{File, Disk, Io, Checkpoint, put, perm}
use collomia.DiffModel.Checkpoint.{is_some}
use collomia.DiffModel.Plan.{Reversal}
use collomia.DiffModel.Plan.Spans.{file_of, reversal_at, Unique}
use collomia.DiffModel.Restore.{
  agrees, look_read, look, look_all, moved, or_default, rewrite_file, apply_plan,
}

-- The machine does what it is asked.
pub record IsWilling (io : Io) : Type 0 where
  pub opens : (p : Codes) → io.opens p ≡ true
  pub reads : (p : Codes) → io.reads p ≡ true
  pub stats : (p : Codes) → io.stats p ≡ true
  pub writes : (p : Codes) → io.writes p ≡ true
  pub saves : (c : Checkpoint) → io.fits c && io.saves c ≡ true

-- A reversal that can be carried out to the letter: a file that is to be removed is still there,
-- the permission bits to restore are neither zero nor too many, and the process's mask leaves those
-- of a file that is to be made again.
pub record IsRestorable (io : Io) (r : Reversal) : Type 0 where
  pub still_there : r.target ≡ none → is_some r.expected ≡ true
  pub mode : is_some r.target ≡ true → or_default r.target_mode ≡ r.target_mode
  pub unmasked :
      is_some r.target ≡ true → r.expected ≡ none → io.new_mode r.target_mode ≡ r.target_mode

-- The files of a plan are as the snapshots left them.
abbrev pub Held : Disk → List Reversal → Type 0
Held d plan =
    (p : Codes) (r : Reversal)
    → reversal_at p plan ≡ some r
    → d p ≡ file_of r.expected r.expected_mode

Held-head :
    (d : Disk) (r : Reversal) (rs : List Reversal)
    → Held d (r ∷ rs)
    → d r.path ≡ file_of r.expected r.expected_mode
unfolding reversal_at
Held-head d r rs held = held r.path r (rw (text_eq_refl r.path) refl)

-- A file that another reversal of a list names is another one.
apart :
    (p : Codes) (r q : Reversal) (rs : List Reversal)
    → reversal_at r.path rs ≡ none
    → reversal_at p rs ≡ some q
    → text_eq p r.path ≡ false
apart p r q rs u h = elim (Bool-cases (text_eq p r.path)) [
  | inl e ↦
      let gone : reversal_at p rs ≡ none = ap (λ x. reversal_at x rs) (text_eq→eq p r.path e) ∙ u in
      cc
  | inr e ↦ e
]

Held-tail :
    (d : Disk) (r : Reversal) (rs : List Reversal) → Unique (r ∷ rs) → Held d (r ∷ rs) → Held d rs
unfolding reversal_at
Held-tail d r rs (u, us) held p q h = held p q (rw (apart p r q rs u h) h)

-- What the writes leave of a file, where a reversal says so.
abbrev pub Left : Disk → Codes → Option File → Option Reversal → Type 0
Left d p f none = f ≡ d p
Left d p f (some r) = f ≡ file_of r.target r.target_mode

-- The rest of a plan, on the files that the first write leaves.

module _ (io : Io) (willing : IsWilling io) where
  look_read-agrees :
      (r : Reversal) (o : Option Codes) → look_read io r o (file_of o r.expected_mode) ≡ agrees
  unfolding text_eq
  look_read-agrees r none = refl
  look_read-agrees r (some text) = rw (text_eq_refl text) (
      rw (willing.stats r.path)
        (rw ((==_iff (perm r.expected_mode) (perm r.expected_mode)).1 refl) refl))

  pub look-agrees :
      (d : Disk) (r : Reversal)
      → d r.path ≡ file_of r.expected r.expected_mode
      → look io d r ≡ agrees
  unfolding look
  look-agrees d r h =
      rw (willing.opens r.path) (rw (willing.reads r.path) (rw h (look_read-agrees r r.expected)))

  pub look_all-agrees :
      (d : Disk) (plan : List Reversal) → Unique plan → Held d plan → look_all io d plan ≡ moved []
  unfolding look_all
  look_all-agrees d [] u held = refl
  look_all-agrees d (r ∷ rs) u held =
      rw (look-agrees d r (Held-head d r rs held))
        (look_all-agrees d rs u.1 (Held-tail d r rs u held))

  -- A restorable reversal of a file that is as it is expected.
  pub rewrite_file-done :
      (d : Disk) (p : Codes) (target expected : Option Codes) (m k : ℕ)
      → d p ≡ file_of expected k
      → (target ≡ none → is_some expected ≡ true)
      → (is_some target ≡ true → or_default m ≡ m)
      → (is_some target ≡ true → expected ≡ none → io.new_mode m ≡ m)
      → rewrite_file io p target m d ≡ some (put p (file_of target m) d)
  unfolding rewrite_file
  rewrite_file-done d p none none m k h there mode new = let gone : false ≡ true = there refl in cc
  rewrite_file-done d p none (some t) m k h there mode new =
      rw (h, rewrite_file) (rw (willing.writes p) refl)
  rewrite_file-done d p (some x) none m k h there mode new =
      rw (willing.writes p) (rw h (rw (mode refl) (rw (new refl refl) refl)))
  rewrite_file-done d p (some x) (some t) m k h there mode new =
      rw (willing.writes p) (rw h (rw (mode refl) refl))

  Held-put :
      (d : Disk) (r : Reversal) (rs : List Reversal) (f : Option File)
      → Unique (r ∷ rs)
      → Held d (r ∷ rs)
      → Held (put r.path f d) rs
  unfolding put
  Held-put d r rs f u held p q h = rw (apart p r q rs u.0 h) (Held-tail d r rs u held p q h)

  Left-put :
      (d : Disk) (q p : Codes) (f g : Option File) (o : Option Reversal)
      → text_eq p q ≡ false
      → Left (put q f d) p g o
      → Left d p g o
  unfolding put
  Left-put d q p f g none e left = left ∙ rw e refl
  Left-put d q p f g (some r) e left = left

  put_same :
      (d : Disk) (q p : Codes) (f g : Option File)
      → text_eq p q ≡ true
      → Left (put q f d) p g none
      → g ≡ f
  unfolding put
  put_same d q p f g e left = left ∙ rw e refl

  Left-cons :
      (d : Disk) (r : Reversal) (rs : List Reversal) (p : Codes) (g : Option File)
      → reversal_at r.path rs ≡ none
      → Left (put r.path (file_of r.target r.target_mode) d) p g (reversal_at p rs)
      → Left d p g (reversal_at p (r ∷ rs))
  unfolding reversal_at put
  Left-cons d r rs p g u left = elim (Bool-cases (text_eq p r.path)) [
    | inl e ↦
        let gone : reversal_at p rs ≡ none =
          ap (λ x. reversal_at x rs) (text_eq→eq p r.path e) ∙ u in
        rw e (
          put_same d r.path p _ g e
            (subst (Left (put r.path (file_of r.target r.target_mode) d) p g) gone left))
    | inr e ↦ rw e (Left-put d r.path p _ g (reversal_at p rs) e left)
  ]

  pub apply_plan-Left :
      (plan : List Reversal) (d : Disk)
      → Unique plan
      → Held d plan
      → All (IsRestorable io) plan
      → ((apply_plan io plan d).failure ≡ none)
        × ((p : Codes) → Left d p ((apply_plan io plan d).disk p) (reversal_at p plan))
  unfolding apply_plan reversal_at
  apply_plan-Left [] d u held ok = (refl, λ p. refl)
  apply_plan-Left (r ∷ rs) d u held (o, ok) =
      let done =
        rewrite_file-done d r.path r.target r.expected r.target_mode r.expected_mode
          (Held-head d r rs held) o.still_there o.mode o.unmasked in
      let rest =
        apply_plan-Left rs (put r.path (file_of r.target r.target_mode) d) u.1
          (Held-put d r rs (file_of r.target r.target_mode) u held) ok in
      rw (done, apply_plan) (rest.0, λ p. Left-cons d r rs p _ u.0 (rest.1 p))
