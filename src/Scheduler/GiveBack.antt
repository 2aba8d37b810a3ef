-- ===== src/Scheduler/GiveBack.antt =====
-- Giving a slot back, and the end of a wait, keep the invariant of internal/agent/scheduler.go.
use mathlib.Core.List.{Memᴰ}
use collomia.Common.{
  ℕ, ◌-◌, true, false, not, ◌||◌, ◌==◌, String, str_eq, eq_iff, ◌≡◌, ◌≢◌, inl, inr, arith,
  Bool-cases, All, All-Mem, ==_iff,
}
use collomia.Scheduler.{Waiter, Scheduler, put, mark, remove, give_back, withdraw, cancel, release}
use collomia.Scheduler.Invariant.{Inv, of_provider}
use collomia.Scheduler.Remove.{
  Mem_of_remove, remove-Distinct, remove-Apart, remove-keep, remove-All_ne, count-remove,
  length-remove,
}
use collomia.Scheduler.Steps.{dispatch-Inv}

module _ (lower : ℕ → ℕ) (s : Scheduler) (w : Waiter) (h : Inv lower s) where
  -- A slot is given back by a waiter that holds one.
  module _ (m : Memᴰ w s.active_waiters) where
    left_ne : All (λ v. v.id ≢ w.id) (remove w.id s.active_waiters)
    left_ne = remove-All_ne w.id s.active_waiters h.distinct_active

    give_back-provider_counted :
        (p : String)
        → put s.active_by_provider w.provider (s.active_by_provider w.provider - 1) p
          ≡ of_provider p (remove w.id s.active_waiters)
    give_back-provider_counted p = ground (
      arith,
      count-remove (λ (v : Waiter). str_eq p v.provider) s.active_waiters h.distinct_active m,
      h.provider_counted p,
      h.provider_counted w.provider,
      eq_iff p w.provider,
    )

    give_back-running :
        (v : Waiter)
        → Memᴰ v (remove w.id s.active_waiters)
        → Memᴰ v s.issued × (s.started v.id ≡ true) × (mark s.released w.id v.id ≡ false)
    give_back-running v n =
        let (known, on, kept) = h.running v (Mem_of_remove w.id v s.active_waiters n) in
        let other = All-Mem (λ v. v.id ≢ w.id) (remove w.id s.active_waiters) left_ne n in
        (known, on, ground arith)

    give_back-Inv : Inv lower (give_back lower s w)
    unfolding give_back
    give_back-Inv = record {
      positive = h.positive;
      tightens = h.tightens;
      counted = omega (arith, length-remove s.active_waiters h.distinct_active m, h.counted);
      bounded = omega (arith, h.bounded);
      provider_counted = give_back-provider_counted;
      provider_bounded = λ p.
          ground (arith, h.provider_bounded p, h.provider_bounded w.provider, eq_iff p w.provider);
      apart = remove-Apart w.id lower s.active_waiters h.apart;
      distinct_active = remove-Distinct w.id s.active_waiters h.distinct_active;
      distinct_queue = h.distinct_queue;
      running = give_back-running;
      waiting = h.waiting;
      held = λ v n on kept.
          remove-keep w.id (h.held v n on (ground arith)) (λ e. (let gone = kept in ground arith));
      unique = h.unique;
      ordered = λ i r.
          (let on = (h.running w m).1 in
            let old = h.ordered i in
            elim (Bool-cases (i == w.id)) [
              | inl e ↦ (let same : i ≡ w.id = (==_iff i w.id).0 e in rw same on)
              | inr e ↦ old (ground arith)
            ]);
    }

  drop-Inv : s.started w.id ≡ false → Inv lower (record s { queue = remove w.id s.queue })
  drop-Inv off = record {
    positive = h.positive;
    tightens = h.tightens;
    counted = h.counted;
    bounded = h.bounded;
    provider_counted = h.provider_counted;
    provider_bounded = h.provider_bounded;
    apart = h.apart;
    distinct_active = h.distinct_active;
    distinct_queue = remove-Distinct w.id s.queue h.distinct_queue;
    running = h.running;
    waiting = λ v m. h.waiting v (Mem_of_remove w.id v s.queue m);
    held = h.held;
    unique = h.unique;
    ordered = h.ordered;
  }

  pub cancel-Inv : Memᴰ w s.issued → Inv lower (cancel lower s w)
  unfolding cancel withdraw
  cancel-Inv known = elim (Bool-cases (s.started w.id)) [
    | inr off ↦
        rw off (dispatch-Inv lower (record s { queue = remove w.id s.queue }) (drop-Inv off))
    | inl on ↦ elim (Bool-cases (s.released w.id)) [
      | inl gone ↦ rw (on, gone) (dispatch-Inv lower s h)
      | inr kept ↦
          rw (on, kept)
            (dispatch-Inv lower (give_back lower s w) (give_back-Inv (h.held w known on kept)))
    ]
  ]

  pub release-Inv : Memᴰ w s.issued → Inv lower (release lower s w)
  unfolding release
  release-Inv known = elim (Bool-cases (not (s.started w.id) || s.released w.id)) [
    | inl e ↦ rw e h
    | inr e ↦ rw e (
        dispatch-Inv lower (give_back lower s w)
          (give_back-Inv (h.held w known (ground arith) (ground arith))))
  ]
