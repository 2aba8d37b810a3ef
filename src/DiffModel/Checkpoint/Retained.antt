-- ===== src/DiffModel/Checkpoint/Retained.antt =====
-- internal/diffmodel/checkpoint.go, persistCheckpointLocked: what a saved checkpoint holds.
use collomia.Common.{
  ℕ, zero, suc, ◌+◌, ◌-◌, ◌≤◌, ◌<◌, Bool, true, false, List, [], ◌∷◌, ◌++◌, length, keep, ltb, none,
  some, ◌≡◌, ◌⊎◌, refl, sym, ap, ◌∙◌, All, Bool-cases, Option-cases, inl, inr, arith,
}
use collomia.Common.Text.{Codes}
use collomia.DiffModel.Data.{Snapshot, Entry, Checkpoint, Tracker, Io, perm}
use collomia.DiffModel.Checkpoint.{
  checkpoint_bytes, checkpoint_file_bytes, checkpoint_entries, max, take, drop, size_of, entry_size,
  is_unavailable, entry_of, Gathered, skip, retain, gather, raise, start_of, gathered, state_of,
  is_some,
}

-- The bytes that an entry keeps.
abbrev pub kept_bytes : Entry → ℕ
kept_bytes e = size_of e.before + size_of e.after

abbrev pub total_bytes : List Entry → ℕ
total_bytes [] = 0
total_bytes (e ∷ es) = kept_bytes e + total_bytes es

abbrev pub IsSmall : Entry → Type 0
IsSmall e = (size_of e.before ≤ checkpoint_file_bytes) × (size_of e.after ≤ checkpoint_file_bytes)

pub record IsBounded (c : Checkpoint) : Type 0 where
  pub few : length c.entries ≤ checkpoint_entries
  pub small : All IsSmall c.entries
  pub total : total_bytes c.entries ≤ checkpoint_bytes

-- A snapshot of a turn after this one.
abbrev pub is_after : ℕ → Snapshot → Bool
is_after turn s = ltb turn s.turn

abbrev pub entry_after : ℕ → Entry → Bool
entry_after turn e = ltb turn e.turn

-- Why the content of a mutation is not kept, where the entries keep so many bytes in all.
abbrev pub IsTooMuch : ℕ → Snapshot → Type 0
IsTooMuch bytes s =
    (s.unavailable ≡ true)
    ⊎ (checkpoint_file_bytes < size_of s.before)
    ⊎ (checkpoint_file_bytes < size_of s.after)
    ⊎ (checkpoint_bytes < bytes + entry_size s)

-- An entry that holds a mutation: its path below the root, its kind, its turn, its modes and
-- whether the file was there, and both texts, or neither where they are too much.
pub record Keeps (io : Io) (bytes : ℕ) (e : Entry) (s : Snapshot) : Type 0 where
  pub path : io.relative s.path ≡ some e.path
  pub op : e.op ≡ s.op
  pub turn : e.turn ≡ s.turn
  pub modes : (e.before_mode ≡ perm s.before_mode) × (e.after_mode ≡ perm s.after_mode)
  pub existed : (e.existed_before ≡ is_some s.before) × (e.existed_after ≡ is_some s.after)
  pub content :
      ((e.unavailable ≡ false) × (e.before ≡ s.before) × (e.after ≡ s.after))
      ⊎ ((e.unavailable ≡ true) × (e.before ≡ none) × (e.after ≡ none) × IsTooMuch bytes s)

-- The entries hold the mutations, one each, in order.
pub data Match (io : Io) (bytes : ℕ) : List Entry → List Snapshot → Type 0 where
  done : Match io bytes [] []
  both :
      {e : Entry} {s : Snapshot} {es : List Entry} {ss : List Snapshot}
      → Keeps io bytes e s
      → Match io bytes es ss
      → Match io bytes (e ∷ es) (s ∷ ss)

keep-append :
    (f : Snapshot → Bool) (xs ys : List Snapshot) → keep f (xs ++ ys) ≡ keep f xs ++ keep f ys
keep-append f [] ys = refl
keep-append f (x ∷ xs) ys = ground (arith, keep-append f xs ys)

length-drop : (n : ℕ) (xs : List Snapshot) → length (drop n xs) ≡ length xs - n
unfolding drop
length-drop zero xs = omega arith
length-drop (suc n) [] = omega arith
length-drop (suc n) (x ∷ xs) = omega (arith, length-drop n xs)

take-drop : (n : ℕ) (xs : List Snapshot) → take n xs ++ drop n xs ≡ xs
unfolding take drop
take-drop zero xs = refl
take-drop (suc n) [] = refl
take-drop (suc n) (x ∷ xs) = ap (λ ys. x ∷ ys) (take-drop n xs)

raise_mono : (floor : ℕ) (ss : List Snapshot) → floor ≤ raise floor ss
unfolding raise
raise_mono floor [] = omega arith
raise_mono floor (s ∷ ss) = ground (arith, raise_mono (max floor s.turn) ss)

-- No snapshot of the dropped ones is after a turn that the floor allows.
raise-none :
    (turn floor : ℕ) (ss : List Snapshot) → raise floor ss ≤ turn → keep (is_after turn) ss ≡ []
unfolding raise
raise-none turn floor [] h = refl
raise-none turn floor (s ∷ ss) h =
    let low = raise_mono (max floor s.turn) ss in
    ground (arith, low, raise-none turn (max floor s.turn) ss h)

module _ (io : Io) where
  -- The three ways of the loop with a snapshot.
  gather_cases {ℓ} :
      (P : Gathered → Type ℓ) (floor total : ℕ) (s : Snapshot) (ss : List Snapshot)
      → P (skip s (gather io floor total ss))
      → ((rel : Codes)
          → io.relative s.path ≡ some rel
          → is_unavailable total s ≡ true
          → P (retain rel true s (gather io floor total ss)))
      → ((rel : Codes)
          → io.relative s.path ≡ some rel
          → is_unavailable total s ≡ false
          → P (retain rel false s (gather io floor (total + entry_size s) ss)))
      → P (gather io floor total (s ∷ ss))
  unfolding gather
  gather_cases P floor total s ss outside lost kept = elim (Option-cases (io.relative s.path)) [
    | inl e ↦ rw (e, gather) outside
    | inr (rel, e) ↦ elim (Bool-cases (is_unavailable total s)) [
      | inl u ↦ rw (e, gather) (rw (u, gather) (lost rel e u))
      | inr u ↦ rw (e, gather) (rw (u, gather) (kept rel e u))
    ]
  ]

  gather-length :
      (floor total : ℕ) (ss : List Snapshot) → length (gather io floor total ss).entries ≤ length ss
  unfolding gather
  gather-length floor total [] = omega arith
  gather-length floor total (s ∷ ss) =
      gather_cases (λ g. length g.entries ≤ length (s ∷ ss)) floor total s ss
        (omega (arith, gather-length floor total ss))
        (λ rel p v. omega (arith, gather-length floor total ss))
        (λ rel p u. omega (arith, gather-length floor (total + entry_size s) ss))

  -- What is kept of a snapshot is within the bounds.
  available-IsSmall :
      (total : ℕ) (rel : Codes) (s : Snapshot)
      → is_unavailable total s ≡ false
      → IsSmall (entry_of rel false s) × (total + entry_size s ≤ checkpoint_bytes)
  available-IsSmall total rel s u = ground arith

  gather-IsSmall :
      (floor total : ℕ) (ss : List Snapshot) → All IsSmall (gather io floor total ss).entries
  unfolding gather
  gather-IsSmall floor total [] = tt
  gather-IsSmall floor total (s ∷ ss) =
      gather_cases (λ g. All IsSmall g.entries) floor total s ss (gather-IsSmall floor total ss)
        (λ rel p v. ((omega arith, omega arith), gather-IsSmall floor total ss))
        (λ rel p u.
          ((available-IsSmall total rel s u).0, gather-IsSmall floor (total + entry_size s) ss))

  gather-total :
      (floor total : ℕ) (ss : List Snapshot)
      → total ≤ checkpoint_bytes
      → total + total_bytes (gather io floor total ss).entries ≤ checkpoint_bytes
  unfolding gather
  gather-total floor total [] h = omega arith
  gather-total floor total (s ∷ ss) h =
      gather_cases (λ g. total + total_bytes g.entries ≤ checkpoint_bytes) floor total s ss
        (gather-total floor total ss h) (λ rel p v. omega (arith, gather-total floor total ss h))
        (λ rel p u.
          let fits = (available-IsSmall total rel s u).1 in
          omega (arith, gather-total floor (total + entry_size s) ss fits))

  gather-floor : (floor total : ℕ) (ss : List Snapshot) → floor ≤ (gather io floor total ss).floor
  unfolding gather
  gather-floor floor total [] = omega arith
  gather-floor floor total (s ∷ ss) =
      gather_cases (λ g. floor ≤ g.floor) floor total s ss
        (let low = gather-floor floor total ss in ground (arith, low))
        (λ rel p v. gather-floor floor total ss)
        (λ rel p u. gather-floor floor (total + entry_size s) ss)

  too_much :
      (total bytes : ℕ) (s : Snapshot)
      → is_unavailable total s ≡ true
      → total ≤ bytes
      → IsTooMuch bytes s
  too_much total bytes s u h = elim (Bool-cases s.unavailable) [
    | inl e ↦ inl e
    | inr e ↦ inr (ground arith)
  ]

  lost-Keeps :
      (total bytes : ℕ) (rel : Codes) (s : Snapshot)
      → io.relative s.path ≡ some rel
      → is_unavailable total s ≡ true
      → total ≤ bytes
      → Keeps io bytes (entry_of rel true s) s
  lost-Keeps total bytes rel s p u h = record {
    path = p;
    op = refl;
    turn = refl;
    modes = (refl, refl);
    existed = (refl, refl);
    content = inr (refl, refl, refl, too_much total bytes s u h);
  }

  kept-Keeps :
      (bytes : ℕ) (rel : Codes) (s : Snapshot)
      → io.relative s.path ≡ some rel
      → Keeps io bytes (entry_of rel false s) s
  kept-Keeps bytes rel s p = record {
    path = p;
    op = refl;
    turn = refl;
    modes = (refl, refl);
    existed = (refl, refl);
    content = inl (refl, refl, refl);
  }

  -- Entry and snapshot are both after the turn, or neither is.
  Match-turn :
      (bytes turn : ℕ) (e : Entry) (s : Snapshot) (es : List Entry) (ss : List Snapshot)
      → Keeps io bytes e s
      → Match io bytes (keep (entry_after turn) es) (keep (is_after turn) ss)
      → Match io bytes (keep (entry_after turn) (e ∷ es)) (keep (is_after turn) (s ∷ ss))
  Match-turn bytes turn e s es ss k m = elim (Bool-cases (ltb turn s.turn)) [
    | inl h ↦ rw (ap (ltb turn) k.turn ∙ h, h) (both k m)
    | inr h ↦ rw (ap (ltb turn) k.turn ∙ h, h) m
  ]

  -- A turn that the floor allows finds every later snapshot among the entries.
  gather-Match :
      (bytes turn floor total : ℕ) (ss : List Snapshot)
      → (gather io floor total ss).floor ≤ turn
      → total + total_bytes (gather io floor total ss).entries ≤ bytes
      → Match io bytes
          (keep (entry_after turn) (gather io floor total ss).entries)
          (keep (is_after turn) ss)
  unfolding gather
  gather-Match bytes turn floor total [] = λ h b. done
  gather-Match bytes turn floor total (s ∷ ss) =
      gather_cases
        (λ g.
          g.floor ≤ turn
          → total + total_bytes g.entries ≤ bytes
          → Match io bytes (keep (entry_after turn) g.entries) (keep (is_after turn) (s ∷ ss)))
        floor total s ss
        (λ h b.
          let early : ltb turn s.turn ≡ false = ground arith in
          rw early (gather-Match bytes turn floor total ss (ground arith) b))
        (λ rel p u h b.
          Match-turn bytes turn _ s _ ss (lost-Keeps total bytes rel s p u (omega (arith, b)))
            (gather-Match bytes turn floor total ss h (omega (arith, b))))
        (λ rel p u h b.
          Match-turn bytes turn _ s _ ss (kept-Keeps bytes rel s p)
            (gather-Match bytes turn floor (total + entry_size s) ss h (omega (arith, b))))

-- A saved checkpoint has at most 256 entries, keeps at most 1 MiB of a side of a file and at most
-- 8 MiB in all. For a turn that its floor allows, its entries after that turn hold the mutations of
-- the history after that turn, one each and in order, none left out: an entry has the path below
-- the root, the kind of mutation, the turn, the modes and whether the file was there before and
-- after, and it has both texts, or it is marked unavailable with neither. It is so marked only where
-- the history had already lost the texts, where a side is longer than 1 MiB, or where the mutation
-- and what the checkpoint keeps are more than 8 MiB.
pub gathered-IsRetained :
    (io : Io) (t : Tracker)
    → IsBounded (state_of t (gathered io t))
      × ((turn : ℕ)
          → (state_of t (gathered io t)).floor ≤ turn
          → Match io
              (total_bytes (state_of t (gathered io t)).entries)
              (keep (entry_after turn) (state_of t (gathered io t)).entries)
              (keep (is_after turn) t.history))
unfolding gathered
gathered-IsRetained io t =
    let n = start_of t in
    let old = take n t.history in
    let new = drop n t.history in
    let floor = raise t.checkpoint_floor old in
    let fewer = gather-length io floor 0 new in
    let long = length-drop n t.history in
    let all_of = gather-total io floor 0 new (omega arith) in
    (
      record {
        few = omega (arith, fewer, long);
        small = gather-IsSmall io floor 0 new;
        total = omega (arith, all_of);
      },
      λ turn h.
          let low = gather-floor io floor 0 new in
          let none_old = raise-none turn t.checkpoint_floor old (omega (arith, low, h)) in
          let parts : keep (is_after turn) t.history ≡ keep (is_after turn) new =
            ap (keep (is_after turn)) (sym (take-drop n t.history))
            ∙ keep-append (is_after turn) old new
            ∙ ap (λ xs. xs ++ keep (is_after turn) new) none_old in
          let all_bytes = total_bytes (gather io floor 0 new).entries in
          rw parts (gather-Match io all_bytes turn floor 0 new h (omega arith)),
    )
