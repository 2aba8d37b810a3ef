-- ===== src/WebGuard/Tests.antt =====
-- Runs of internal/web/guard.go on concrete addresses, and the theorems there.
use collomia.Common.{◌*◌, ◌+◌, false, true, none, some, ◌≡◌, ◌↔◌, refl, arith}
use collomia.WebGuard.{
  v4, v6, nil, octets, two_32, nat64, loopback, private_network, link_local, translated, reserved,
  multicast, refused, not_resolved, unreadable_destination, dial_control,
}
use collomia.WebGuard.Listed.{IsUnlisted, translates, dial_control-IsUnlisted}
use collomia.WebGuard.ListedV6.{IsUnlistedV6, two_112, dial_control-IsUnlistedV6}

-- The metadata service, in all its spellings, a public address and some blocks.
guard_tests :
    (dial_control false (some (v4 (octets 169 254 169 254))) ≡ some (refused link_local))
    × (dial_control false (some (v6 (0xffff * two_32 + octets 169 254 169 254)))
        ≡ some (refused link_local))
    × (dial_control false (some (v6 (nat64 * two_32 + octets 169 254 169 254)))
        ≡ some (refused (translated link_local)))
    × (dial_control false (some (v4 (octets 93 184 216 34))) ≡ none)
    × (dial_control false (some (v4 (octets 172 31 0 1))) ≡ some (refused private_network))
    × (dial_control false (some (v4 (octets 198 19 0 1))) ≡ some (refused (reserved 3)))
    × (dial_control false (some (v6 1)) ≡ some (refused loopback))
    × (dial_control false (some (v6 (0xfe80 * two_112 + 1))) ≡ some (refused link_local))
    × (dial_control false (some (v6 (0xff05 * two_112))) ≡ some (refused multicast))
    × (dial_control false (some (v6 (0x2606 * two_112))) ≡ none)
    × (dial_control false (some nil) ≡ some not_resolved)
    × (dial_control false none ≡ some unreadable_destination)
    × (dial_control true none ≡ none)
unfolding dial_control
guard_tests = (refl, refl, refl, refl, refl, refl, refl, refl, refl, refl, refl, refl, refl)

-- Addresses that are not of the public internet and in no block that the guard lists: one of
-- 0.0.0.0/8, one of the former site-local fec0::/10, and ::127.0.0.1.
unlisted_tests :
    (dial_control false (some (v4 (octets 0 0 0 5))) ≡ none)
    × (dial_control false (some (v6 (0xfec0 * two_112 + 1))) ≡ none)
    × (dial_control false (some (v6 (octets 127 0 0 1))) ≡ none)
unfolding dial_control
unlisted_tests = (refl, refl, refl)

dial_control-IsUnlisted_example :
    (dial_control false (some (v6 (nat64 * two_32 + octets 169 254 169 254))) ≡ none)
    ↔ IsUnlisted (octets 169 254 169 254)
dial_control-IsUnlisted_example =
    dial_control-IsUnlisted (omega arith) (translates (octets 169 254 169 254))

dial_control-IsUnlistedV6_example :
    (dial_control false (some (v6 (0x2606 * two_112))) ≡ none) ↔ IsUnlistedV6 (0x2606 * two_112)
dial_control-IsUnlistedV6_example =
    dial_control-IsUnlistedV6 (0x2606 * two_112) (omega arith) (omega arith) (omega arith)
