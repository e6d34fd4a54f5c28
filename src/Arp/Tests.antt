-- ===== src/Arp/Tests.antt =====
-- The theorems on the ARP layer at concrete hosts and caches.
use iron_kernel.Prelude.{ℕ, ◌<◌, ◌≡◌, refl, none, some, true, false, [], ◌∷◌, ◌==◌, arith}
use iron_kernel.Arp.{
  Ip, Mac, Cache, arp_cache_size, no_mac, lookup_from, arp_cache_lookup, arp_cache_insert,
  slot_from, arp_resolve, Poll,
}
use iron_kernel.Arp.Cache.{hit, arp_cache_lookup-arp_cache_insert}
use iron_kernel.Arp.Resolve.{answered, arp_resolve-answered}

abbrev host : ℕ → Ip
host n = record { ip0 = 10; ip1 = 0; ip2 = 2; ip3 = n }

abbrev card : ℕ → Mac
card n = record { mac0 = 2; mac1 = 0; mac2 = 0; mac3 = 0; mac4 = 0; mac5 = n }

abbrev empty : Cache
empty i = record { ip = host 0; mac = no_mac; valid = false }

abbrev crowded : Cache
crowded i = record { ip = host i; mac = card i; valid = true }

two_hosts :
    arp_cache_lookup
      (arp_cache_insert (arp_cache_insert empty (host 2) (card 2)) (host 3) (card 3))
      (host 2)
    ≡ some (card 2)
unfolding arp_cache_lookup arp_cache_insert lookup_from slot_from
two_hosts = refl

new_host : (k : ℕ) → k < arp_cache_size → hit (host 9) (crowded k) ≡ false
new_host k h = rw (other k h) refl
  where
    other : (k : ℕ) → k < arp_cache_size → (k == 9) ≡ false
    other k h = ground arith

arp_cache_lookup-arp_cache_insert_example :
    arp_cache_lookup (arp_cache_insert crowded (host 9) (card 9)) (host 9) ≡ some (card 9)
arp_cache_lookup-arp_cache_insert_example =
    arp_cache_lookup-arp_cache_insert crowded (host 9) (card 9)

-- a poll on which no frame waits
abbrev silence : Poll
silence = record { received = none; timed_out = false }

arp_resolve-answered_example :
    (m : Mac) × ((arp_resolve
        (card 1)
        (host 1)
        (host 2)
        ((silence ∷ answered (card 1) (host 1) (host 2) (card 2) true ∷ []) ∷ [])
        empty).0
      ≡ some m)
arp_resolve-answered_example =
    arp_resolve-answered (card 1) (host 1) (host 2) (card 2) (silence ∷ []) [] true [] empty
      (omega arith) (refl, tt)
