-- ===== src/WebGuard.antt =====
-- internal/web/guard.go: the addresses that the web tools may connect to. An address is the number
-- that its bytes write, of 4 bytes or of 16. The classifiers of Go's package net are spelled out.
pub mod Listed
pub mod ListedV6
mod Tests
use collomia.Common.{
  ℕ, ◌/◌, ◌%◌, ◌*◌, ◌+◌, Bool, true, false, not, ◌&&◌, ◌||◌, List, [], ◌∷◌, Option, none, some,
  ◌==◌, if◌then◌else◌,
}

-- net.IP
pub data Address : Type 0 where
  nil : Address
  v4 v6 : ℕ → Address

-- The reasons of blockedReason. `reserved` has the place of the block in reservedRanges.
pub data Reason : Type 0 where
  unreadable unspecified loopback link_local private_network multicast not_global : Reason
  reserved : ℕ → Reason
  translated : Reason → Reason

-- Whether the bits of an address before the last `size` of them (`size` a power of 2) are a prefix.
abbrev pub in_block : ℕ → ℕ → ℕ → Bool
in_block prefix size n = n / size == prefix

abbrev pub two_32 : ℕ
two_32 = 0x100000000

abbrev pub two_64 : ℕ
two_64 = 0x10000000000000000

-- The bytes a.b.c.d
abbrev pub octets : ℕ → ℕ → ℕ → ℕ → ℕ
octets a b c d = ((a * 256 + b) * 256 + c) * 256 + d

-- The two first bytes of an address of 16.
abbrev pub head_v6 : ℕ → ℕ
head_v6 n = n / 0x10000000000000000000000000000

-- The reserved ranges of 4 bytes, and those of 16.
unfoldable pub reserved_v4 : ℕ → Option Reason
reserved_v4 n =
    if in_block 0x191 0x400000 n
    then some (reserved 0)
    else if in_block 0xc00000 0x100 n
    then some (reserved 1)
    else if in_block 0xc00002 0x100 n
    then some (reserved 2)
    else if in_block 0x6309 0x20000 n
    then some (reserved 3)
    else if in_block 0xc63364 0x100 n
    then some (reserved 4)
    else if in_block 0xcb0071 0x100 n
    then some (reserved 5)
    else if in_block 0xf 0x10000000 n
    then some (reserved 6)
    else none

unfoldable pub reserved_v6 : ℕ → Option Reason
reserved_v6 n =
    if n / 0x1000000000000000000000000 == 0x20010db8
    then some (reserved 7)
    else if n / two_64 == 0x100000000000000
    then some (reserved 8)
    else none

-- The switch and the loop of blockedReason for 4 bytes. An address that is no global unicast is one
-- of those before, or 255.255.255.255.
unfoldable pub blocked_v4 : ℕ → Option Reason
unfolding reserved_v4
blocked_v4 n =
    if n == 0
    then some unspecified
    else if in_block 127 0x1000000 n
    then some loopback
    else if in_block 0xa9fe 0x10000 n || in_block 0xe00000 0x100 n
    then some link_local
    else if in_block 10 0x1000000 n || in_block 0xac1 0x100000 n || in_block 0xc0a8 0x10000 n
    then some private_network
    else if in_block 14 0x10000000 n
    then some multicast
    else if n == 0xffffffff
    then some not_global
    else reserved_v4 n

-- The same for 16 bytes: ::, ::1, fe80::/10 and ffx2::/16, fc00::/7, ff00::/8.
unfoldable pub blocked_v6 : ℕ → Option Reason
unfolding reserved_v6
blocked_v6 n =
    if n == 0
    then some unspecified
    else if n == 1
    then some loopback
    else if head_v6 n / 64 == 0x3fa || head_v6 n / 256 == 255 && head_v6 n % 16 == 2
    then some link_local
    else if head_v6 n / 512 == 0x7e
    then some private_network
    else if head_v6 n / 256 == 255
    then some multicast
    else reserved_v6 n

-- The address of 4 bytes that 16 bytes carry: ::ffff:0:0/96.
unfoldable pub blocked_unmapped : ℕ → Option Reason
unfolding blocked_v4 blocked_v6
blocked_unmapped n = if n / two_32 == 0xffff then blocked_v4 (n % two_32) else blocked_v6 n

-- The prefix 64:ff9b::/96
abbrev pub nat64 : ℕ
nat64 = 0x64ff9b0000000000000000

abbrev pub translate : Option Reason → Option Reason → Option Reason
translate (some why) later = some (translated why)
translate none later = later

-- blockedReason
unfoldable pub blocked_reason : Address → Option Reason
unfolding blocked_v4 blocked_unmapped
blocked_reason nil = some unreadable
blocked_reason (v4 n) = blocked_v4 n
blocked_reason (v6 n) =
    if n / two_32 == nat64
    then translate (blocked_v4 (n % two_32)) (blocked_unmapped n)
    else blocked_unmapped n

-- The errors of dialControl.
pub data Refusal : Type 0 where
  unreadable_destination not_resolved : Refusal
  refused : Reason → Refusal

abbrev pub refusal : Option Reason → Option Refusal
refusal none = none
refusal (some why) = some (refused why)

-- The function of dialControl, on what net.SplitHostPort and net.ParseIP make of the destination:
-- `none` where it has no host and port, `some nil` where the host is no literal address.
unfoldable pub dial_control : Bool → Option Address → Option Refusal
unfolding blocked_reason
dial_control allow_private destination = if allow_private then none else elim destination [
  | none ↦ some unreadable_destination
  | some nil ↦ some not_resolved
  | some (v4 n) ↦ refusal (blocked_reason (v4 n))
  | some (v6 n) ↦ refusal (blocked_reason (v6 n))
]
