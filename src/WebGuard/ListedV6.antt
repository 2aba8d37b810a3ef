-- ===== src/WebGuard/ListedV6.antt =====
-- The guard of internal/web/guard.go on the addresses of 16 bytes outside ::ffff:0:0/96 and
-- 64:ff9b::/96.
use collomia.Common.{
  ℕ, ◌/◌, ◌*◌, ◌+◌, ◌≤◌, ◌<◌, false, List, [], ◌∷◌, none, some, ◌≡◌, ◌≢◌, ◌↔◌, ◌⊎◌, sym, ◌∙◌, arith,
  All,
}
use collomia.WebGuard.{v6, two_32, two_64, nat64, reserved_v6, blocked_v6, dial_control}
use collomia.WebGuard.Listed.{blocked_reason_other, blocked_unmapped_other, dial_control_iff}

-- 2 ^ 112, behind the two first bytes
abbrev pub two_112 : ℕ
two_112 = 0x10000000000000000000000000000

-- The blocks of addresses of 16 bytes that the guard refuses: ::/127, 100::/64,
-- 2001:db8::/32, fc00::/7, fe80::/10 and ff00::/8.
abbrev pub blocks_v6 : List (ℕ × ℕ)
blocks_v6 =
    (0, 2)
    ∷ (0x0100 * two_112, 0x0100 * two_112 + two_64)
    ∷ (0x20010db8 * 0x1000000000000000000000000, 0x20010db9 * 0x1000000000000000000000000)
    ∷ (0xfc00 * two_112, 0xfe00 * two_112)
    ∷ (0xfe80 * two_112, 0xfec0 * two_112)
    ∷ (0xff00 * two_112, 0x10000 * two_112)
    ∷ []

abbrev pub IsUnlistedV6 : ℕ → Type 0
IsUnlistedV6 n = All (λ block. (n < block.0) ⊎ (block.1 ≤ n)) blocks_v6

blocked_v6-IsUnlistedV6 : (n : ℕ) → n < 0x10000 * two_112 → blocked_v6 n ≡ none → IsUnlistedV6 n
unfolding blocked_v6 reserved_v6
blocked_v6-IsUnlistedV6 n small h = (
  ground arith,
  (ground arith, (ground arith, (ground arith, (ground arith, (ground arith, tt))))),
)

blocked_v6_of_IsUnlistedV6 : (n : ℕ) → n < 0x10000 * two_112 → IsUnlistedV6 n → blocked_v6 n ≡ none
unfolding blocked_v6 reserved_v6
blocked_v6_of_IsUnlistedV6 n small h = ground arith

-- The guard lets a connection to an address of 16 bytes outside ::ffff:0:0/96 and 64:ff9b::/96
-- through exactly when the address lies in none of the blocks ::/127, 100::/64, 2001:db8::/32,
-- fc00::/7, fe80::/10 and ff00::/8.
pub dial_control-IsUnlistedV6 :
    (n : ℕ)
    → n < 0x10000 * two_112
    → n / two_32 ≢ 0xffff
    → n / two_32 ≢ nat64
    → (dial_control false (some (v6 n)) ≡ none) ↔ IsUnlistedV6 n
dial_control-IsUnlistedV6 n small plain direct =
    let (one, two) = dial_control_iff (v6 n) (λ e. cc) in
    let way = blocked_reason_other n direct ∙ blocked_unmapped_other n plain in
    (
      λ h. blocked_v6-IsUnlistedV6 n small (sym way ∙ one h),
      λ h. two (way ∙ blocked_v6_of_IsUnlistedV6 n small h),
    )
