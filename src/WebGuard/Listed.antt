-- ===== src/WebGuard/Listed.antt =====
-- What the guard of internal/web/guard.go lets through: the blocks of addresses as intervals.
use collomia.Common.{
  ℕ, ◌/◌, ◌%◌, ◌*◌, ◌+◌, ◌≤◌, ◌<◌, true, false, List, [], ◌∷◌, Option, none, some, ◌==◌, ◌≡◌, ◌≢◌,
  ◌↔◌, ◌⊎◌, refl, sym, ap, subst, ◌∙◌, arith, All, ==_iff, if_elim,
}
use collomia.WebGuard.{
  Address, nil, v4, v6, Reason, octets, two_32, reserved_v4, blocked_v4, blocked_unmapped,
  blocked_reason, blocked_v6, reserved_v6, nat64, dial_control, translate, refusal,
}

-- The blocks of addresses of 4 bytes that the guard refuses, each with its first address
-- and the first address behind it.
abbrev pub blocks : List (ℕ × ℕ)
blocks =
    (octets 0 0 0 0, octets 0 0 0 1)
    ∷ (octets 10 0 0 0, octets 11 0 0 0)
    ∷ (octets 100 64 0 0, octets 100 128 0 0)
    ∷ (octets 127 0 0 0, octets 128 0 0 0)
    ∷ (octets 169 254 0 0, octets 169 255 0 0)
    ∷ (octets 172 16 0 0, octets 172 32 0 0)
    ∷ (octets 192 0 0 0, octets 192 0 1 0)
    ∷ (octets 192 0 2 0, octets 192 0 3 0)
    ∷ (octets 192 168 0 0, octets 192 169 0 0)
    ∷ (octets 198 18 0 0, octets 198 20 0 0)
    ∷ (octets 198 51 100 0, octets 198 51 101 0)
    ∷ (octets 203 0 113 0, octets 203 0 114 0)
    ∷ (octets 224 0 0 0, two_32)
    ∷ []

abbrev pub IsUnlisted : ℕ → Type 0
IsUnlisted n = All (λ block. (n < block.0) ⊎ (block.1 ≤ n)) blocks

blocked_v4-IsUnlisted : (n : ℕ) → n < two_32 → blocked_v4 n ≡ none → IsUnlisted n
unfolding blocked_v4 reserved_v4
blocked_v4-IsUnlisted n small h = (
  ground arith,
  (
    ground arith,
    (
      ground arith,
      (
        ground arith,
        (
          ground arith,
          (
            ground arith,
            (
              ground arith,
              (
                ground arith,
                (ground arith, (ground arith, (ground arith, (ground arith, (ground arith, tt))))),
              ),
            ),
          ),
        ),
      ),
    ),
  ),
)

blocked_v4_of_IsUnlisted : (n : ℕ) → n < two_32 → IsUnlisted n → blocked_v4 n ≡ none
unfolding blocked_v4 reserved_v4
blocked_v4_of_IsUnlisted n small h = ground arith

-- An address, and the address of 4 bytes that a connection to it reaches: itself, the one it is
-- mapped from (::ffff:0:0/96), or the one that NAT64 translates it to (64:ff9b::/96).
pub data Carries : Address → ℕ → Type 0 where
  plain : (n : ℕ) → Carries (v4 n) n
  mapped : (n : ℕ) → Carries (v6 (0xffff * two_32 + n)) n
  translates : (n : ℕ) → Carries (v6 (nat64 * two_32 + n)) n

blocked_v4_iff : (n : ℕ) → n < two_32 → (blocked_v4 n ≡ none) ↔ IsUnlisted n
blocked_v4_iff n small = (blocked_v4-IsUnlisted n small, blocked_v4_of_IsUnlisted n small)

carried : (k n : ℕ) → n < two_32 → ((k * two_32 + n) / two_32 ≡ k) × ((k * two_32 + n) % two_32 ≡ n)
carried k n small = (omega arith, omega arith)

-- The two ways through the test for NAT64, and through the one for a mapped address.
pub blocked_reason_other : (m : ℕ) → m / two_32 ≢ nat64 → blocked_reason (v6 m) ≡ blocked_unmapped m
unfolding blocked_reason
blocked_reason_other m h =
    if_elim (λ x. x ≡ blocked_unmapped m) (m / two_32 == nat64)
      (λ e. absurd (h ((==_iff (m / two_32) nat64).0 e))) (λ e. refl)

blocked_unmapped_mapped :
    (m : ℕ) → m / two_32 ≡ 0xffff → blocked_unmapped m ≡ blocked_v4 (m % two_32)
unfolding blocked_unmapped
blocked_unmapped_mapped m h =
    if_elim (λ x. x ≡ blocked_v4 (m % two_32)) (m / two_32 == 0xffff) (λ e. refl)
      (λ e. let yes : (m / two_32 == 0xffff) ≡ true = (==_iff (m / two_32) 0xffff).1 h in cc)

pub blocked_unmapped_other : (m : ℕ) → m / two_32 ≢ 0xffff → blocked_unmapped m ≡ blocked_v6 m
unfolding blocked_unmapped
blocked_unmapped_other m h =
    if_elim (λ x. x ≡ blocked_v6 m) (m / two_32 == 0xffff)
      (λ e. absurd (h ((==_iff (m / two_32) 0xffff).0 e))) (λ e. refl)

translate-none : (o later : Option Reason) → later ≡ none → (translate o later ≡ none) ↔ (o ≡ none)
translate-none none later h = (λ e. refl, λ e. h)
translate-none (some why) later h = (λ e. cc, λ e. cc)

blocked_reason-nat64 :
    (m : ℕ)
    → m / two_32 ≡ nat64
    → blocked_unmapped m ≡ none
    → (blocked_reason (v6 m) ≡ none) ↔ (blocked_v4 (m % two_32) ≡ none)
unfolding blocked_reason
blocked_reason-nat64 m h free =
    if_elim (λ x. (x ≡ none) ↔ (blocked_v4 (m % two_32) ≡ none)) (m / two_32 == nat64)
      (λ e. translate-none (blocked_v4 (m % two_32)) (blocked_unmapped m) free)
      (λ e. let yes : (m / two_32 == nat64) ≡ true = (==_iff (m / two_32) nat64).1 h in cc)

blocked_v6-nat64 : (m : ℕ) → m / two_32 ≡ nat64 → blocked_v6 m ≡ none
unfolding blocked_v6 reserved_v6
blocked_v6-nat64 m h = ground arith

Carries-iff :
    {a : Address} {n : ℕ} → n < two_32 → Carries a n → (blocked_reason a ≡ none) ↔ IsUnlisted n
unfolding blocked_reason
Carries-iff small (plain n) = blocked_v4_iff n small
Carries-iff small (mapped n) =
    let (top, low) = carried 0xffff n small in
    let way =
      blocked_reason_other (0xffff * two_32 + n) (omega arith)
      ∙ blocked_unmapped_mapped (0xffff * two_32 + n) top
      ∙ ap blocked_v4 low in
    subst (λ x. (x ≡ none) ↔ IsUnlisted n) (sym way) (blocked_v4_iff n small)
Carries-iff small (translates n) =
    let (top, low) = carried nat64 n small in
    let m = nat64 * two_32 + n in
    let free = blocked_unmapped_other m (omega arith) ∙ blocked_v6-nat64 m top in
    let (one, two) = blocked_reason-nat64 m top free in
    let (three, four) = blocked_v4_iff n small in
    (λ h. three (ap blocked_v4 (sym low) ∙ one h), λ h. two (ap blocked_v4 low ∙ four h))

refusal_iff : (o : Option Reason) → (refusal o ≡ none) ↔ (o ≡ none)
refusal_iff none = (λ h. refl, λ h. refl)
refusal_iff (some why) = (λ h. cc, λ h. cc)

pub dial_control_iff :
    (a : Address) → a ≢ nil → (dial_control false (some a) ≡ none) ↔ (blocked_reason a ≡ none)
unfolding dial_control
dial_control_iff nil h = absurd (h refl)
dial_control_iff (v4 n) h = refusal_iff (blocked_reason (v4 n))
dial_control_iff (v6 n) h = refusal_iff (blocked_reason (v6 n))

Carries-not_nil : {a : Address} {n : ℕ} → Carries a n → a ≢ nil
Carries-not_nil (plain n) = λ e. cc
Carries-not_nil (mapped n) = λ e. cc
Carries-not_nil (translates n) = λ e. cc

-- The guard lets a connection to an address of 4 bytes through exactly when the address is neither
-- 0.0.0.0 nor in one of the blocks 10.0.0.0/8, 100.64.0.0/10, 127.0.0.0/8, 169.254.0.0/16,
-- 172.16.0.0/12, 192.0.0.0/24, 192.0.2.0/24, 192.168.0.0/16, 198.18.0.0/15, 198.51.100.0/24,
-- 203.0.113.0/24 and 224.0.0.0/3, also where the address is written as 16 bytes that map it or that
-- NAT64 translates to it.
pub dial_control-IsUnlisted :
    {a : Address} {n : ℕ}
    → n < two_32
    → Carries a n
    → (dial_control false (some a) ≡ none) ↔ IsUnlisted n
dial_control-IsUnlisted {a} small c =
    let (one, two) = dial_control_iff a (Carries-not_nil c) in
    let (three, four) = Carries-iff small c in (λ h. three (one h), λ h. two (four h))
