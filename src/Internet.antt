-- ===== src/Internet.antt =====
-- IPv4, ICMP and UDP: src/drivers/ip.c, with the checksum of src/drivers/net.h. A buffer of received
-- bytes is a function, of which `len` bytes are the frame; the frames that go out are lists.
pub mod Checksum
pub mod Datagrams
pub mod Ping
mod Tests
use iron_kernel.Prelude.{
  ℕ, zero, suc, ◌+◌, ◌-◌, ◌*◌, ◌/◌, ◌%◌, ◌^◌, Bool, true, false, ◌&&◌, not, Option, none, some,
  List, [], ◌∷◌, ◌++◌, ltb, leb, ◌==◌, if◌then◌else◌, get_or, length, take, min, u8, u16, u32,
}
use iron_kernel.Arp.{Ip, Mac, Cache, same_ip, ip_bytes, mac_bytes, arp_recv}

-- The sum of the 16-bit words, an odd last byte being the upper half of a word. The 65535 bytes of
-- the largest block cannot make a sum of 32 bits wrap.
unfoldable pub sum_words : List ℕ → ℕ
sum_words [] = 0
sum_words (hi ∷ []) = hi * 256
sum_words (hi ∷ lo ∷ rest) = hi * 256 + lo + sum_words rest

-- `while (sum >> 16) sum = (sum & 0xFFFF) + (sum >> 16);`
unfoldable pub fold_carries : (fuel sum : ℕ) → ℕ
fold_carries zero sum = sum
fold_carries (suc fuel) sum =
    let rest = fold_carries fuel (sum % 65536 + sum / 65536) in
    if sum / 65536 == 0 then sum else rest

-- `(uint16_t)(~sum)`; four rounds end the loop for every 32-bit sum.
unfoldable pub net_checksum : List ℕ → ℕ
net_checksum bytes = 65535 - fold_carries 4 (sum_words bytes)

-- the two bytes that `htons` leaves in memory
abbrev pub be16 : ℕ → List ℕ → List ℕ
be16 v l = v / 256 % 256 ∷ v % 256 ∷ l

-- `ntohs` of the two bytes at `at`
abbrev pub be16_at : (buf : ℕ → ℕ) → (at : ℕ) → ℕ
be16_at buf at = buf at * 256 + buf (at + 1)

-- the `n` bytes at `at`
abbrev pub bytes_at : (buf : ℕ → ℕ) → (at n : ℕ) → List ℕ
bytes_at buf at zero = []
bytes_at buf at (suc n) = buf at ∷ bytes_at buf (at + 1) n

abbrev pub udp_rx_size : ℕ
udp_rx_size = 512

-- The variables of ip.c: the addresses, the next id, the received datagram and the port that
-- listens, and the state of a ping; and the cache of arp.c.
pub record Net : Type 0 where
  pub net_ip : Ip
  pub net_gw : Ip
  pub ip_id : ℕ
  pub udp_rx : List ℕ
  pub udp_rx_port : ℕ
  pub ping_got : Bool
  pub ping_ticks : ℕ
  pub ping_id : ℕ
  pub ping_seq : ℕ
  pub arp_cache : Cache

unfoldable pub udp_open : ℕ → Net → Net
udp_open local_port n = record n { udp_rx_port = local_port; udp_rx = [] }

unfoldable pub udp_close : Net → Net
udp_close n = record n { udp_rx_port = 0; udp_rx = [] }

-- One turn of a waiting loop: the buffer and what `e1000_recv` gives as the length of a
-- frame in it, and the ticks, which do not move within it.
pub record Turn : Type 0 where
  pub buf : ℕ → ℕ
  pub rlen : Option ℕ
  pub tick : ℕ

-- The bytes copied out; what was not is gone.
unfoldable pub udp_recv : (maxlen : ℕ) → Net → List ℕ × Net
udp_recv maxlen n =
    if length n.udp_rx == 0
    then ([], n)
    else (take (min (length n.udp_rx) maxlen) n.udp_rx, record n { udp_rx = [] })

-- The 20 bytes of the header, with a given checksum.
abbrev pub ip_header : (total_len id proto checksum : ℕ) → (src dst : Ip) → List ℕ → List ℕ
ip_header total_len id proto checksum src dst l =
    0x45
    ∷ 0
    ∷ be16 total_len
        (be16 id (be16 0x4000 (64 ∷ proto ∷ be16 checksum (ip_bytes src (ip_bytes dst l)))))

-- The frame that goes out, or `none` for one that is too long; the length is a `uint16_t`.
unfoldable pub ip_send_raw :
    (my_mac dst_mac : Mac)
    → (dst_ip : Ip) → (proto : ℕ) → (payload : List ℕ) → Net
    → Option (List ℕ) × Net
ip_send_raw my_mac dst_mac dst_ip proto payload n =
    let plen = length payload in
    let checksum = net_checksum (ip_header (20 + plen) n.ip_id proto 0 n.net_ip dst_ip []) in
    let frame = mac_bytes dst_mac (
      mac_bytes my_mac
        (be16 0x0800 (ip_header (20 + plen) n.ip_id proto checksum n.net_ip dst_ip payload))) in
    if ltb 1514 (u16 (34 + plen))
    then (none, n)
    else (some frame, record n { ip_id = u16 (n.ip_id + 1) })

abbrev pub on_subnet : Ip → Net → Bool
on_subnet dst n = dst.ip0 == n.net_ip.ip0 && dst.ip1 == n.net_ip.ip1 && dst.ip2 == n.net_ip.ip2

-- The address that `ip_send` and `icmp_ping` resolve.
unfoldable pub arp_target : Ip → Net → Ip
arp_target dst n = if on_subnet dst n then dst else n.net_gw

-- The end of `ip_send`, for what `arp_resolve` answered.
unfoldable pub ip_send_to :
    (found : Option Mac)
    → (my_mac : Mac) → (dst_ip : Ip) → (proto : ℕ) → (payload : List ℕ) → Net
    → Option (List ℕ) × Net
ip_send_to none my_mac dst_ip proto payload n = (none, n)
ip_send_to (some mac) my_mac dst_ip proto payload n = ip_send_raw my_mac mac dst_ip proto payload n

-- `arp_resolve` is given by its answer for each address.
unfoldable pub ip_send :
    (resolve : Ip → Option Mac)
    → (my_mac : Mac) → (dst_ip : Ip) → (proto : ℕ) → (payload : List ℕ) → Net
    → Option (List ℕ) × Net
ip_send resolve my_mac dst_ip proto payload n =
    ip_send_to (resolve (arp_target dst_ip n)) my_mac dst_ip proto payload n

unfoldable pub udp_packet : (src_port dst_port : ℕ) → (payload : List ℕ) → List ℕ
udp_packet src_port dst_port payload =
    be16 src_port (be16 dst_port (be16 (8 + length payload) (0 ∷ 0 ∷ payload)))

-- The length is a `uint16_t` before it is compared.
unfoldable pub udp_send :
    (resolve : Ip → Option Mac)
    → (my_mac : Mac) → (dst_ip : Ip) → (src_port dst_port : ℕ) → (payload : List ℕ) → Net
    → Option (List ℕ) × Net
udp_send resolve my_mac dst_ip src_port dst_port payload n =
    if ltb 1480 (u16 (8 + length payload))
    then (none, n)
    else ip_send resolve my_mac dst_ip 17 (udp_packet src_port dst_port payload) n

-- `count` bytes 0, 1, 2, ... from `i` on
abbrev pub counting : (i count : ℕ) → List ℕ
counting i zero = []
counting i (suc count) = i ∷ counting (i + 1) count

-- the 40 bytes of an echo request with a given checksum
abbrev pub echo : (seq checksum : ℕ) → List ℕ
echo seq checksum = 8 ∷ 0 ∷ be16 checksum (be16 0x494B (be16 seq (counting 0 32)))

unfoldable pub echo_request : (seq : ℕ) → List ℕ
echo_request seq = echo seq (net_checksum (echo seq 0))

-- The part of `icmp_ping` before its wait.
unfoldable pub ping_start : (seq : ℕ) → Net → Net
ping_start seq n = record n { ping_id = 0x494B; ping_seq = seq; ping_got = false }

unfoldable pub icmp_recv : (now : ℕ) → (buf : ℕ → ℕ) → (len : ℕ) → Net → Net
icmp_recv now buf len n =
    if ltb len 42
    then n
    else if not (buf 23 == 1)
    then n
    else if not (buf 34 == 0)
    then n
    else if not (be16_at buf 38 == n.ping_id)
    then n
    else if not (be16_at buf 40 == n.ping_seq)
    then n
    else record n { ping_ticks = now; ping_got = true }

-- The last branch of `net_recv`: a datagram for the port that listens. The length of its data is a
-- `uint16_t`.
unfoldable pub udp_deliver : (buf : ℕ → ℕ) → (len : ℕ) → Net → Net
udp_deliver buf len n =
    let data_len = u16 (be16_at buf 38 + 65536 - 8) in
    if n.udp_rx_port == 0
    then n
    else if ltb len 42
    then n
    else if be16_at buf 36 == n.udp_rx_port
    then record n {
      udp_rx = bytes_at buf 42 (if ltb udp_rx_size data_len then udp_rx_size else data_len);
    }
    else n

module _ {T : Type 0} (tcp_recv_frame : (ℕ → ℕ) → ℕ → Net × T → Net × T) where
  -- `net_recv` on the variables of ip.c and on those of tcp.c, and the frame that it sends if any.
  unfoldable pub net_recv :
      (my_mac : Mac) → (now : ℕ) → (buf : ℕ → ℕ) → (len : ℕ) → Net × T → (Net × T) × Option (List ℕ)
  net_recv my_mac now buf len (n, t) =
      let proto = buf 23 in
      let (cache, reply) = arp_recv my_mac n.net_ip (bytes_at buf 0 len) n.arp_cache in
      if ltb len 14
      then ((n, t), none)
      else if be16_at buf 12 == 0x0806
      then ((record n { arp_cache = cache }, t), reply)
      else if not (be16_at buf 12 == 0x0800)
      then ((n, t), none)
      else if ltb len 34
      then ((n, t), none)
      else if proto == 1
      then ((icmp_recv now buf len n, t), none)
      else if proto == 6
      then (tcp_recv_frame buf len (n, t), none)
      else if proto == 17
      then ((udp_deliver buf len n, t), none)
      else ((n, t), none)
