-- ===== src/Arp.antt =====
-- The address resolution protocol: src/drivers/arp.c and arp.h, with `htons` of src/drivers/net.h
-- as the order of the bytes in a frame. The network card is the frames that go in and out.
pub mod Cache
pub mod Exchange
pub mod Resolve
mod Tests
use iron_kernel.Prelude.{
  ℕ, zero, suc, ◌+◌, ◌*◌, ◌/◌, ◌%◌, Bool, true, false, ◌&&◌, not, Option, none, some, List, [], ◌∷◌,
  ltb, leb, ◌==◌, if◌then◌else◌, update, get_or, length, take,
}

-- `uint8_t ip[4]`
pub record Ip : Type 0 where
  pub ip0 : ℕ
  pub ip1 : ℕ
  pub ip2 : ℕ
  pub ip3 : ℕ

-- `uint8_t mac[6]`
pub record Mac : Type 0 where
  pub mac0 : ℕ
  pub mac1 : ℕ
  pub mac2 : ℕ
  pub mac3 : ℕ
  pub mac4 : ℕ
  pub mac5 : ℕ

pub record Entry : Type 0 where
  pub ip : Ip
  pub mac : Mac
  pub valid : Bool

abbrev pub Cache : Type 0
Cache = ℕ → Entry

abbrev pub arp_cache_size : ℕ
arp_cache_size = 8

abbrev pub same_ip : Ip → Ip → Bool
same_ip a b = a.ip0 == b.ip0 && a.ip1 == b.ip1 && a.ip2 == b.ip2 && a.ip3 == b.ip3

-- The loop of `arp_cache_lookup` over the `n` entries from `i` on.
unfoldable pub lookup_from : Cache → Ip → (n i : ℕ) → Option Mac
lookup_from cache ip zero i = none
lookup_from cache ip (suc n) i =
    let rest = lookup_from cache ip n (suc i) in
    if not (cache i).valid
    then rest
    else if not (same_ip (cache i).ip ip)
    then rest
    else some (cache i).mac

unfoldable pub arp_cache_lookup : Cache → Ip → Option Mac
arp_cache_lookup cache ip = lookup_from cache ip arp_cache_size 0

abbrev pub or_slot : Option ℕ → ℕ → Option ℕ
or_slot none i = some i
or_slot (some s) i = some s

-- The loop of `arp_cache_insert`; a `slot` of -1 is `none`.
unfoldable pub slot_from : Cache → Ip → (n i : ℕ) → (slot : Option ℕ) → Option ℕ
slot_from cache ip zero i slot = slot
slot_from cache ip (suc n) i slot =
    let free = slot_from cache ip n (suc i) (or_slot slot i) in
    let other = slot_from cache ip n (suc i) slot in
    if not (cache i).valid then free else if same_ip (cache i).ip ip then some i else other

-- `if (slot < 0) slot = 0;`
abbrev pub or_first : Option ℕ → ℕ
or_first none = 0
or_first (some s) = s

unfoldable pub arp_cache_insert : Cache → Ip → Mac → Cache
arp_cache_insert cache ip mac =
    update cache (or_first (slot_from cache ip arp_cache_size 0 none))
      (record { ip = ip; mac = mac; valid = true })

abbrev pub broadcast : Mac
broadcast = record { mac0 = 255; mac1 = 255; mac2 = 255; mac3 = 255; mac4 = 255; mac5 = 255 }

abbrev pub no_mac : Mac
no_mac = record { mac0 = 0; mac1 = 0; mac2 = 0; mac3 = 0; mac4 = 0; mac5 = 0 }

abbrev pub mac_bytes : Mac → List ℕ → List ℕ
mac_bytes m l = m.mac0 ∷ m.mac1 ∷ m.mac2 ∷ m.mac3 ∷ m.mac4 ∷ m.mac5 ∷ l

abbrev pub ip_bytes : Ip → List ℕ → List ℕ
ip_bytes p l = p.ip0 ∷ p.ip1 ∷ p.ip2 ∷ p.ip3 ∷ l

-- The 42 bytes of an Ethernet header and an `arp_pkt_t`, with `op` below 256.
abbrev pub arp_frame :
    (dst src : Mac) → (op : ℕ) → (sender : Mac) → Ip → (target : Mac) → Ip → List ℕ
arp_frame dst src op sender sender_ip target target_ip = mac_bytes dst (
    mac_bytes src (
      0x08
      ∷ 0x06
      ∷ 0
      ∷ 1
      ∷ 0x08
      ∷ 0
      ∷ 6
      ∷ 4
      ∷ 0
      ∷ op
      ∷ mac_bytes sender (ip_bytes sender_ip (mac_bytes target (ip_bytes target_ip [])))))

-- The frame that `arp_send_request` sends from the host with address `my_mac` and `g_net_ip`.
unfoldable pub arp_send_request : (my_mac : Mac) → (g_net_ip target_ip : Ip) → List ℕ
arp_send_request my_mac g_net_ip target_ip =
    arp_frame broadcast my_mac 1 my_mac g_net_ip no_mac target_ip

-- `ntohs` of the two bytes at `at`
unfoldable pub word_at : List ℕ → ℕ → ℕ
word_at frame at = get_or frame at 0 * 256 + get_or frame (at + 1) 0

unfoldable pub ip_at : List ℕ → ℕ → Ip
ip_at frame at = record {
  ip0 = get_or frame at 0;
  ip1 = get_or frame (at + 1) 0;
  ip2 = get_or frame (at + 2) 0;
  ip3 = get_or frame (at + 3) 0;
}

unfoldable pub mac_at : List ℕ → ℕ → Mac
mac_at frame at = record {
  mac0 = get_or frame at 0;
  mac1 = get_or frame (at + 1) 0;
  mac2 = get_or frame (at + 2) 0;
  mac3 = get_or frame (at + 3) 0;
  mac4 = get_or frame (at + 4) 0;
  mac5 = get_or frame (at + 5) 0;
}

abbrev pub hw_type : List ℕ → ℕ
hw_type frame = word_at frame 14

abbrev pub proto_type : List ℕ → ℕ
proto_type frame = word_at frame 16

abbrev pub arp_op : List ℕ → ℕ
arp_op frame = word_at frame 20

abbrev pub sender_mac : List ℕ → Mac
sender_mac frame = mac_at frame 22

abbrev pub sender_ip : List ℕ → Ip
sender_ip frame = ip_at frame 28

abbrev pub target_ip : List ℕ → Ip
target_ip frame = ip_at frame 38

-- What the handler sends for a packet it has put into the cache.
unfoldable pub reply_to : (my_mac : Mac) → (g_net_ip : Ip) → List ℕ → Option (List ℕ)
reply_to my_mac g_net_ip frame =
    if arp_op frame == 1
    then (if not (same_ip (target_ip frame) g_net_ip)
        then none
        else some (
            arp_frame (sender_mac frame) my_mac 2 my_mac g_net_ip (sender_mac frame)
              (sender_ip frame)))
    else none

-- The cache afterwards, and the frame that goes out if any.
unfoldable pub arp_recv :
    (my_mac : Mac) → (g_net_ip : Ip) → (frame : List ℕ) → Cache → Cache × Option (List ℕ)
arp_recv my_mac g_net_ip frame cache =
    if ltb (length frame) 42
    then (cache, none)
    else if not (hw_type frame == 1)
    then (cache, none)
    else if not (proto_type frame == 0x0800)
    then (cache, none)
    else (
      arp_cache_insert cache (sender_ip frame) (sender_mac frame),
      reply_to my_mac g_net_ip frame,
    )

-- One turn of the waiting loop: what `e1000_recv` gives, and whether a second has passed by then.
pub record Poll : Type 0 where
  pub received : Option (List ℕ)
  pub timed_out : Bool

-- The body of the waiting loop: the cache after a received frame, and the lookup that follows it.
unfoldable pub on_frame : Mac → Ip → Ip → (buf : List ℕ) → Cache → Option Mac × Cache
on_frame my_mac g_net_ip ip buf cache =
    let heard =
      if word_at buf 12 == 0x0806 then (arp_recv my_mac g_net_ip buf cache).0 else cache in
    (arp_cache_lookup heard ip, heard)

unfoldable pub on_poll : Mac → Ip → Ip → Option (List ℕ) → Cache → Option Mac × Cache
on_poll my_mac g_net_ip ip none cache = (none, cache)
on_poll my_mac g_net_ip ip (some buf) cache =
    if leb 14 (length buf) then on_frame my_mac g_net_ip ip buf cache else (none, cache)

-- The bound of the waiting loop.
abbrev pub wait_iterations : ℕ
wait_iterations = 8000000

-- The waiting loop of one attempt, with `iters` iterations left, over what the polls will give. It ends
-- with a hit, with the second, or with the iterations; polls that are not given end it as well. The
-- frames it answers are not kept.
unfoldable pub wait : (iters : ℕ) → Mac → Ip → Ip → List Poll → Cache → Option Mac × Cache
wait zero my_mac g_net_ip ip polls cache = (none, cache)
wait (suc iters) my_mac g_net_ip ip [] cache = (none, cache)
wait (suc iters) my_mac g_net_ip ip (p ∷ polls) cache =
    let (found, cache1) = on_poll my_mac g_net_ip ip p.received cache in
    let rest = wait iters my_mac g_net_ip ip polls cache1 in
    elim found [ some m ↦ (some m, cache1) | none ↦ if p.timed_out then (none, cache1) else rest ]

-- The attempts, each a request that goes out and the turns that wait for the answer to it.
unfoldable pub attempts : Mac → Ip → Ip → List (List Poll) → Cache → Option Mac × Cache
attempts my_mac g_net_ip ip [] cache = (none, cache)
attempts my_mac g_net_ip ip (polls ∷ more) cache =
    let (found, cache1) = wait wait_iterations my_mac g_net_ip ip polls cache in
    let rest = attempts my_mac g_net_ip ip more cache1 in
    elim found [
      | some m ↦ (some m, cache1)
      | none ↦ elim (arp_cache_lookup cache1 ip) [ some m ↦ (some m, cache1) | none ↦ rest ]
    ]

-- `turns` has the polls of the three attempts.
unfoldable pub arp_resolve :
    Mac → Ip → (ip : Ip) → (turns : List (List Poll)) → Cache → Option Mac × Cache
arp_resolve my_mac g_net_ip ip turns cache = elim (arp_cache_lookup cache ip) [
  | some m ↦ (some m, cache)
  | none ↦ attempts my_mac g_net_ip ip (take 3 turns) cache
]
