-- ===== src/Tcp.antt =====
-- The TCP client of src/drivers/tcp.c, with the constants and byte orders of src/drivers/net.h. The
-- card is ready, so that a frame of at most 1514 bytes is always taken: the frames that tcp.c sends are
-- kept in `sent`, the latest first.
pub mod Machine
pub mod Valid
pub mod Calls
pub mod Handshake
pub mod Checksum
pub mod Retransmit
pub mod Stream
pub mod Http
pub mod Closed
mod Tests
pub use iron_kernel.Internet.{Turn}
use iron_kernel.Prelude.{
  ℕ, zero, suc, ◌+◌, ◌-◌, ◌*◌, ◌/◌, ◌%◌, ◌^◌, Bool, true, false, ◌&&◌, not, Option, none, some,
  List, [], ◌∷◌, ◌++◌, ltb, leb, ◌==◌, if◌then◌else◌, get_or, length, take, drop, min, u8, u16, u32,
}
use iron_kernel.Arp.{Ip, Mac, same_ip, ip_bytes}
use iron_kernel.Internet.{Net, sum_words, fold_carries, be16, be16_at, bytes_at, ip_send, net_recv}

pub data State : Type 0 where
  closed : State
  syn_sent : State
  established : State

-- `g_retx`; `seg_len` is the length of `seg`.
pub record Retx : Type 0 where
  pub seg : List ℕ
  pub seq_end : ℕ
  pub sent_tick : ℕ
  pub active : Bool
  pub retries : ℕ

-- The variables of tcp.c: `g_isn_state`, `g_tcp`, the first `g_rx_len` bytes of `g_rx_buf`,
-- `g_rx_fin`, `g_retx` and `s_next_port`.
pub record Tcp : Type 0 where
  pub isn_state : ℕ
  pub dst_ip : Ip
  pub dst_port : ℕ
  pub src_port : ℕ
  pub seq : ℕ
  pub ack : ℕ
  pub state : State
  pub rx_buf : List ℕ
  pub rx_fin : Bool
  pub retx : Retx
  pub next_port : ℕ
  pub sent : List (List ℕ)

abbrev pub Host : Type 0
Host = Net × Tcp

abbrev pub tcp_rx_size : ℕ
tcp_rx_size = 8192

abbrev pub tcp_rto_ticks : ℕ
tcp_rto_ticks = 100

abbrev pub tcp_max_retx : ℕ
tcp_max_retx = 5

abbrev pub tcp_fin : ℕ
tcp_fin = 0x01

abbrev pub tcp_syn : ℕ
tcp_syn = 0x02

abbrev pub tcp_rst : ℕ
tcp_rst = 0x04

abbrev pub tcp_psh : ℕ
tcp_psh = 0x08

abbrev pub tcp_ack : ℕ
tcp_ack = 0x10

-- `flags & flag`, for a flag of one bit
abbrev pub has : (flags flag : ℕ) → Bool
has flags flag = flags / flag % 2 == 1

-- the four bytes that `htonl` leaves in memory
abbrev pub be32 : ℕ → List ℕ → List ℕ
be32 v l = v / 2 ^ 24 % 256 ∷ v / 2 ^ 16 % 256 ∷ v / 256 % 256 ∷ v % 256 ∷ l

-- `ntohl` of the four bytes at `at`
abbrev pub be32_at : (buf : ℕ → ℕ) → (at : ℕ) → ℕ
be32_at buf at = buf at * 2 ^ 24 + buf (at + 1) * 2 ^ 16 + buf (at + 2) * 256 + buf (at + 3)

-- The seed, and one step of the generator.
unfoldable pub tcp_gen_isn : (now : ℕ) → Tcp → ℕ × Tcp
tcp_gen_isn now t =
    let seed = if t.isn_state == 0 then now / 2 * 2 + 1 else t.isn_state in
    let isn = u32 (seed * 1664525 + 1013904223) in (isn, record t { isn_state = isn })

-- The sum over the pseudo-header, and the segment behind it.
unfoldable pub tcp_sum : (src dst : Ip) → (seg : List ℕ) → ℕ
tcp_sum src dst seg =
    sum_words (ip_bytes src []) + sum_words (ip_bytes dst []) + 6 + length seg + sum_words seg

unfoldable pub tcp_cksum : (src dst : Ip) → (seg : List ℕ) → ℕ
tcp_cksum src dst seg = 65535 - fold_carries 4 (tcp_sum src dst seg)

-- A segment with a given checksum.
abbrev pub tcp_segment : Tcp → (flags checksum : ℕ) → (payload : List ℕ) → List ℕ
tcp_segment t flags checksum payload = be16 t.src_port (
    be16 t.dst_port (
      be32 t.seq (
        be32 (if has flags tcp_ack then t.ack else 0)
          (0x50 ∷ flags ∷ be16 4096 (be16 checksum (0 ∷ 0 ∷ payload))))))

-- `tcp_len`, a `uint16_t`: the sum wraps for data of 65516 bytes or more.
abbrev pub tcp_len : (payload : List ℕ) → ℕ
tcp_len payload = u16 (20 + length payload)

-- the segment that `tcp_tx` builds, of which `tcp_len` bytes count
abbrev pub tx_segment : Net → Tcp → (flags : ℕ) → (payload : List ℕ) → List ℕ
tx_segment n t flags payload =
    let seg = take (tcp_len payload) (tcp_segment t flags 0 payload) in
    take (tcp_len payload) (tcp_segment t flags (tcp_cksum n.net_ip t.dst_ip seg) payload)

abbrev pub is_sent : Option (List ℕ) → Bool
is_sent none = false
is_sent (some frame) = true

abbrev pub log : Option (List ℕ) → Tcp → Tcp
log none t = t
log (some frame) t = record t { sent = frame ∷ t.sent }

-- A segment that carries data is kept until it is acknowledged.
unfoldable pub arm : (now : ℕ) → (seg payload : List ℕ) → Tcp → Tcp
arm now seg payload t =
    if ltb 0 (length payload)
    then record t {
      retx = record {
        seg = seg;
        seq_end = u32 (t.seq + length payload);
        sent_tick = now;
        active = true;
        retries = 0;
      };
    }
    else t

-- The received bytes are stored as long as there is room.
unfoldable pub store : (payload : List ℕ) → Tcp → Tcp
store payload t = record t { rx_buf = t.rx_buf ++ take (tcp_rx_size - length t.rx_buf) payload }

-- `s_next_port++` on a `uint16_t`, and the range of the ports
abbrev pub port_after : ℕ → ℕ
port_after p = if ltb (u16 (p + 1)) 49152 then 49152 else u16 (p + 1)

-- Whether a frame passes the tests at the start of `tcp_recv_frame`.
abbrev pub is_from_peer : (buf : ℕ → ℕ) → (len : ℕ) → Tcp → Bool
is_from_peer buf len t =
    leb 54 len
    && buf 23 == 6
    && be16_at buf 34 == t.dst_port
    && be16_at buf 36 == t.src_port
    && same_ip (record { ip0 = buf 26; ip1 = buf 27; ip2 = buf 28; ip3 = buf 29 }) t.dst_ip

-- `hdr_bytes`, and the length of the data by the lengths that the headers state
abbrev pub hdr_bytes : (ℕ → ℕ) → ℕ
hdr_bytes buf = u8 (buf 46 / 16 * 4)

abbrev pub data_len : (ℕ → ℕ) → ℕ
data_len buf = be16_at buf 16 - 20 - hdr_bytes buf

-- An acknowledgement of all that was sent ends the retransmission.
unfoldable pub take_ack : (buf : ℕ → ℕ) → Tcp → Tcp
take_ack buf t =
    if has (buf 47) tcp_ack && t.retx.active && leb t.retx.seq_end (be32_at buf 42)
    then record t { retx = record t.retx { active = false } }
    else t

-- The bytes at `at` replaced.
abbrev pub patch : (at : ℕ) → (bytes : List ℕ) → List ℕ → List ℕ
patch at bytes seg = take at seg ++ (bytes ++ drop (at + length bytes) seg)

-- The segment as it is sent again, with the current acknowledgement.
unfoldable pub refresh : (src : Ip) → Tcp → List ℕ
refresh src t =
    let seg = patch 16 (be16 0 []) (patch 8 (be32 t.ack []) t.retx.seg) in
    patch 16 (be16 (tcp_cksum src t.dst_ip seg) []) seg

-- The end of a received segment with FIN in it, after its answer.
unfoldable pub on_fin : Tcp → Tcp
on_fin t = record t { seq = u32 (t.seq + 1); rx_fin = true; state = closed }

-- The variables at the start of `tcp_connect`.
unfoldable pub start : (now : ℕ) → (ip : Ip) → (port : ℕ) → Tcp → Tcp
start now ip port t =
    let (isn, t1) = tcp_gen_isn now (record t {
      dst_ip = ip;
      dst_port = port;
      src_port = t.next_port;
      next_port = port_after t.next_port;
    }) in
    record t1 { seq = isn; ack = 0; state = syn_sent; rx_buf = []; rx_fin = false }
