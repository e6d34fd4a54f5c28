-- ===== src/Internet/Datagrams.antt =====
-- The way of a datagram through src/drivers/ip.c: `udp_send` on one host, `net_recv` and `udp_recv` on
-- another.
use iron_kernel.Prelude.{
  ℕ, suc, ◌+◌, ◌≤◌, ◌<◌, ◌≡◌, ◌≢◌, ◌∙◌, refl, sym, ap, ap₂, subst, Bool, true, false, not, Option,
  none, some, List, [], ◌∷◌, ◌++◌, arith, ltb, ◌==◌, ==_ne, le→ltb, if_false, if◌then◌else◌, get_or,
  length, take, min, u16,
}
use iron_kernel.Arp.{Ip, Mac, mac_bytes, arp_recv}
use iron_kernel.Internet.{
  Net, be16, be16_at, bytes_at, net_checksum, ip_header, ip_send_raw, arp_target, ip_send,
  udp_packet, ip_send_to, udp_send, udp_deliver, icmp_recv, net_recv, udp_recv,
}

-- the received bytes of a frame
abbrev pub received : List ℕ → ℕ → ℕ
received frame i = get_or frame i 0

pub get_or-append : (xs ys : List ℕ) (i d : ℕ) → get_or (xs ++ ys) (length xs + i) d ≡ get_or ys i d
get_or-append [] ys i d = let e : 0 + i ≡ i = omega arith in ap (λ (k : ℕ). get_or ys k d) e
get_or-append (x ∷ xs) ys i d =
    let e : length (x ∷ xs) + i ≡ suc (length xs + i) = omega arith in
    ap (λ (k : ℕ). get_or (x ∷ (xs ++ ys)) k d) e ∙ get_or-append xs ys i d

-- Reading as many bytes as a list has gives the list that stands there.
bytes_at_lem :
    (buf : ℕ → ℕ) (xs : List ℕ) (at : ℕ)
    → ((i : ℕ) → buf (at + i) ≡ get_or xs i 0)
    → bytes_at buf at (length xs) ≡ xs
bytes_at_lem buf [] at h = refl
bytes_at_lem buf (x ∷ xs) at h =
    let first : at ≡ at + 0 = omega arith in
    ap₂ ◌∷◌ (ap buf first ∙ h 0) (bytes_at_lem buf xs (at + 1) λ i. ap buf (plus i) ∙ h (suc i))
  where
    plus : (i : ℕ) → at + 1 + i ≡ at + suc i
    plus i = omega arith

-- The frame that carries a packet.
abbrev ip_frame :
    (my_mac mac : Mac) → (dst_ip : Ip) → (proto : ℕ) → (payload : List ℕ) → Net → List ℕ
ip_frame my_mac mac dst_ip proto payload n =
    let total = 20 + length payload in
    mac_bytes mac (
      mac_bytes my_mac (
        be16 0x0800 (
          ip_header total n.ip_id proto
            (net_checksum (ip_header total n.ip_id proto 0 n.net_ip dst_ip [])) n.net_ip dst_ip
            payload)))

abbrev udp_frame :
    (my_mac mac : Mac) → (dst_ip : Ip) → (src_port dst_port : ℕ) → (payload : List ℕ) → Net → List ℕ
udp_frame my_mac mac dst_ip src_port dst_port payload n =
    ip_frame my_mac mac dst_ip 17 (udp_packet src_port dst_port payload) n

ip_send_resolved :
    (resolve : Ip → Option Mac) (my_mac mac : Mac) (dst_ip : Ip) (proto : ℕ) (payload : List ℕ)
    (n : Net)
    → resolve (arp_target dst_ip n) ≡ some mac
    → ip_send resolve my_mac dst_ip proto payload n ≡ ip_send_raw my_mac mac dst_ip proto payload n
unfolding ip_send ip_send_to
ip_send_resolved resolve my_mac mac dst_ip proto payload n r =
    ap (λ (o : Option Mac). ip_send_to o my_mac dst_ip proto payload n) r

ip_send_raw_fits :
    (my_mac mac : Mac) (dst_ip : Ip) (proto : ℕ) (payload : List ℕ) (n : Net)
    → length payload ≤ 1480
    → (ip_send_raw my_mac mac dst_ip proto payload n).0
      ≡ some (ip_frame my_mac mac dst_ip proto payload n)
unfolding ip_send_raw
ip_send_raw_fits my_mac mac dst_ip proto payload n h =
    ap (λ (p : Option (List ℕ) × Net). p.0)
      (if_false _ _ _ (le→ltb 1514 (u16 (34 + length payload)) (omega arith)))

udp_send_frame :
    (resolve : Ip → Option Mac) (my_mac mac : Mac) (dst_ip : Ip) (src_port dst_port : ℕ)
    (payload : List ℕ) (n : Net)
    → resolve (arp_target dst_ip n) ≡ some mac
    → length payload ≤ 1472
    → (udp_send resolve my_mac dst_ip src_port dst_port payload n).0
      ≡ some (udp_frame my_mac mac dst_ip src_port dst_port payload n)
unfolding udp_send udp_packet
udp_send_frame resolve my_mac mac dst_ip src_port dst_port payload n r h =
    let packet = udp_packet src_port dst_port payload in
    ap (λ (p : Option (List ℕ) × Net). p.0)
      (if_false _ _ _ (le→ltb 1480 (u16 (8 + length payload)) (omega arith)))
    ∙ (ap (λ (p : Option (List ℕ) × Net). p.0)
          (ip_send_resolved resolve my_mac mac dst_ip 17 packet n r)
        ∙ ip_send_raw_fits my_mac mac dst_ip 17 packet n (omega arith))

-- A frame of IP that carries UDP goes to the port that listens.
net_recv_udp :
    {T : Type 0} (tcp_recv_frame : (ℕ → ℕ) → ℕ → Net × T → Net × T) (mac : Mac) (now : ℕ)
    (buf : ℕ → ℕ) (len : ℕ) (r : Net) (t : T)
    → 34 ≤ len
    → be16_at buf 12 ≡ 0x0800
    → buf 23 ≡ 17
    → (net_recv tcp_recv_frame mac now buf len (r, t)).0.0 ≡ udp_deliver buf len r
unfolding net_recv
net_recv_udp tcp_recv_frame mac now buf len r t h type proto = ground arith

-- The port's buffer gets the data of the length that the header states.
udp_deliver_data :
    (buf : ℕ → ℕ) (len : ℕ) (r : Net) (k : ℕ)
    → 42 ≤ len
    → r.udp_rx_port ≢ 0
    → be16_at buf 36 ≡ r.udp_rx_port
    → be16_at buf 38 ≡ 8 + k
    → k ≤ 512
    → (udp_deliver buf len r).udp_rx ≡ bytes_at buf 42 k
unfolding udp_deliver
udp_deliver_data buf len r k h live port size small = ground arith

take_all : (xs : List ℕ) → take (length xs) xs ≡ xs
take_all [] = refl
take_all (x ∷ xs) = ap (λ l. x ∷ l) (take_all xs)

-- The first read takes everything, the next one nothing.
udp_recv_all :
    (n : Net)
    → length n.udp_rx ≤ 512
    → ((udp_recv 512 n).0 ≡ n.udp_rx) × ((udp_recv 512 (udp_recv 512 n).1).0 ≡ [])
unfolding udp_recv
udp_recv_all n h = of n.udp_rx h
  where
    of :
        (xs : List ℕ)
        → length xs ≤ 512
        → ((udp_recv 512 (record n { udp_rx = xs })).0 ≡ xs)
          × ((udp_recv 512 (udp_recv 512 (record n { udp_rx = xs })).1).0 ≡ [])
    of [] h = (refl, refl)
    of (x ∷ xs) h =
        let all : min (suc (length xs)) 512 ≡ length (x ∷ xs) = omega arith in
        let busy =
          if_false (length (x ∷ xs) == 0) ([], record n { udp_rx = x ∷ xs })
            (take (min (length (x ∷ xs)) 512) (x ∷ xs), record n { udp_rx = [] })
            (==_ne _ 0 (omega arith)) in
        (
          ap (λ (p : List ℕ × Net). p.0) busy
              ∙ (ap (λ (k : ℕ). take k (x ∷ xs)) all ∙ take_all (x ∷ xs)),
          ap (λ (p : List ℕ × Net). (udp_recv 512 p.1).0) busy,
        )

-- A datagram of at most 512 bytes, sent by `udp_send` to a port that listens on a host whose hardware
-- address is known, leaves in one frame; when the host takes that frame, `udp_recv` gives
-- exactly the data that was sent, and nothing the next time.
pub udp_recv-udp_send :
    {T : Type 0} (tcp_recv_frame : (ℕ → ℕ) → ℕ → Net × T → Net × T) (resolve : Ip → Option Mac)
    (my_mac mac : Mac) (dst_ip : Ip) (src_port dst_port now : ℕ) (payload : List ℕ) (n r : Net)
    (t : T)
    → resolve (arp_target dst_ip n) ≡ some mac
    → length payload ≤ 512
    → dst_port < 65536
    → dst_port ≢ 0
    → r.udp_rx_port ≡ dst_port
    → (frame : List ℕ) × ((udp_send resolve my_mac dst_ip src_port dst_port payload n).0
        ≡ some frame)
      × (let r' = (net_recv tcp_recv_frame mac now (received frame) (length frame) (r, t)).0.0 in
          ((udp_recv 512 r').0 ≡ payload) × ((udp_recv 512 (udp_recv 512 r').1).0 ≡ []))
unfolding udp_packet
udp_recv-udp_send tcp_recv_frame resolve my_mac mac dst_ip src_port dst_port now payload n r t known
      h port some_port live =
    let frame = udp_frame my_mac mac dst_ip src_port dst_port payload n in
    let r' = (net_recv tcp_recv_frame mac now (received frame) (length frame) (r, t)).0.0 in
    let delivered : r'.udp_rx ≡ payload =
      ap (λ (x : Net). x.udp_rx)
        (net_recv_udp tcp_recv_frame mac now (received frame) (length frame) r t (omega arith) refl
          refl)
      ∙ (udp_deliver_data (received frame) (length frame) r (length payload) (omega arith)
            (λ z. some_port (sym live ∙ z)) (omega arith) (omega arith) h
          ∙ bytes_at_lem (received frame) payload 42
              λ i. get_or-append (take 42 frame) payload i 0) in
    let (all, nothing) =
      udp_recv_all r' (subst (λ (l : List ℕ). length l ≤ 512) (sym delivered) h) in
    (
      frame,
      udp_send_frame resolve my_mac mac dst_ip src_port dst_port payload n known (omega arith),
      (all ∙ delivered, nothing),
    )

-- A frame whose UDP header states a length below its own 8 bytes: the length of the data wraps, and
-- the buffer of the port gets 512 bytes from behind the header, whatever the length of the frame.
pub udp_deliver_wraps :
    (buf : ℕ → ℕ) (len : ℕ) (r : Net)
    → 42 ≤ len
    → r.udp_rx_port ≢ 0
    → be16_at buf 36 ≡ r.udp_rx_port
    → be16_at buf 38 < 8
    → (udp_deliver buf len r).udp_rx ≡ bytes_at buf 42 512
unfolding udp_deliver
udp_deliver_wraps buf len r h live port short = ground arith

either :
    {T : Type 0} (Q : T → Type 0) (b : Bool) (x y : (Net × T) × Option (List ℕ))
    → Q x.0.1
    → Q y.0.1
    → Q (if b then x else y).0.1
either Q true x y p q = p
either Q false x y p q = q

-- Of the state of TCP `net_recv` leaves what there was, or what `tcp_recv_frame` makes of it.
pub net_recv_cases :
    {T : Type 0} (Q : T → Type 0) (tcp_recv_frame : (ℕ → ℕ) → ℕ → Net × T → Net × T) (mac : Mac)
    (now : ℕ) (buf : ℕ → ℕ) (len : ℕ) (r : Net) (t : T)
    → Q t
    → Q (tcp_recv_frame buf len (r, t)).1
    → Q (net_recv tcp_recv_frame mac now buf len (r, t)).0.1
unfolding net_recv
net_recv_cases {T = T} Q tcp_recv_frame mac now buf len r t p q =
    let proto = buf 23 in
    let drop : (Net × T) × Option (List ℕ) = ((r, t), none) in
    let (cache, reply) = arp_recv mac r.net_ip (bytes_at buf 0 len) r.arp_cache in
    let udp = if proto == 17 then ((udp_deliver buf len r, t), none) else drop in
    let tcp = if proto == 6 then (tcp_recv_frame buf len (r, t), none) else udp in
    let icmp = if proto == 1 then ((icmp_recv now buf len r, t), none) else tcp in
    let whole = if ltb len 34 then drop else icmp in
    let ip = if not (be16_at buf 12 == 0x0800) then drop else whole in
    let arp : (Net × T) × Option (List ℕ) = ((record r { arp_cache = cache }, t), reply) in
    let eth = if be16_at buf 12 == 0x0806 then arp else ip in
    either Q (ltb len 14) drop eth p (
      either Q (be16_at buf 12 == 0x0806) arp ip p (
        either Q (not (be16_at buf 12 == 0x0800)) drop whole p (
          either Q (ltb len 34) drop icmp p (
            either Q (proto == 1) ((icmp_recv now buf len r, t), none) tcp p
              (either Q (proto == 6) (tcp_recv_frame buf len (r, t), none) udp q
                (either Q (proto == 17) ((udp_deliver buf len r, t), none) drop p p))))))
