-- ===== src/Arp/Exchange.antt =====
-- A request of src/drivers/arp.c from one host to another, its answer, and what both learn.
use iron_kernel.Prelude.{ℕ, ◌≡◌, refl, none, some, List}
use iron_kernel.Arp.{
  Ip, Mac, Cache, arp_cache_lookup, arp_cache_insert, arp_frame, arp_send_request, arp_recv,
  word_at, ip_at, mac_at, reply_to,
}
use iron_kernel.Arp.Cache.{arp_cache_lookup-arp_cache_insert, same_ip_refl}

-- the answer that a host sends to a request for its address
abbrev pub answer : (mac_a : Mac) → (ip_a : Ip) → (mac_b : Mac) → (ip_b : Ip) → List ℕ
answer mac_a ip_a mac_b ip_b = arp_frame mac_a mac_b 2 mac_b ip_b mac_a ip_a

-- The host `b` takes a request of `a` for its address: it puts `a` into its cache and answers.
pub arp_recv_request :
    (mac_a mac_b : Mac) (ip_a ip_b : Ip) (cb : Cache)
    → arp_recv mac_b ip_b (arp_send_request mac_a ip_a ip_b) cb
      ≡ (arp_cache_insert cb ip_a mac_a, some (answer mac_a ip_a mac_b ip_b))
unfolding arp_recv arp_send_request word_at ip_at mac_at reply_to
arp_recv_request mac_a mac_b ip_a ip_b cb = rw (same_ip_refl ip_b) refl

pub arp_recv-answer :
    (mac_a mac_b : Mac) (ip_a ip_b : Ip) (ca : Cache)
    → arp_recv mac_a ip_a (answer mac_a ip_a mac_b ip_b) ca ≡ (arp_cache_insert ca ip_b mac_b, none)
unfolding arp_recv word_at ip_at mac_at reply_to
arp_recv-answer mac_a mac_b ip_a ip_b ca = refl

-- A host `a` sends a request for the address of `b`, `b` handles it, and `a` handles what `b`
-- sends back. Then `b` finds the hardware address of `a` in its cache, `a` that of `b` in its own,
-- and `a` sends nothing more.
pub arp_exchange :
    (mac_a mac_b : Mac) (ip_a ip_b : Ip) (ca cb : Cache)
    → let (cb', sent) = arp_recv mac_b ip_b (arp_send_request mac_a ip_a ip_b) cb in
      let (ca', sent') = arp_recv mac_a ip_a (answer mac_a ip_a mac_b ip_b) ca in
      (arp_cache_lookup cb' ip_a ≡ some mac_a)
      × (sent ≡ some (answer mac_a ip_a mac_b ip_b))
      × (arp_cache_lookup ca' ip_b ≡ some mac_b)
      × (sent' ≡ none)
arp_exchange mac_a mac_b ip_a ip_b ca cb =
    let asked = arp_recv_request mac_a mac_b ip_a ip_b cb in
    let answered = arp_recv-answer mac_a mac_b ip_a ip_b ca in
    (
      rw asked (arp_cache_lookup-arp_cache_insert cb ip_a mac_a),
      rw asked refl,
      rw answered (arp_cache_lookup-arp_cache_insert ca ip_b mac_b),
      rw answered refl,
    )
