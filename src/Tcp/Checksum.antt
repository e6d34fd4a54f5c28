-- ===== src/Tcp/Checksum.antt =====
-- The checksum that src/drivers/tcp.c puts into a segment.
use iron_kernel.Prelude.{
  ℕ, ◌+◌, ◌-◌, ◌^◌, ◌≤◌, ◌<◌, ◌≡◌, ◌∙◌, ap, List, [], arith, length, take, take_all, All,
}
use iron_kernel.Arp.{Ip, ip_bytes}
use iron_kernel.Internet.{Net, sum_words, fold_carries}
use iron_kernel.Internet.Checksum.{fold_carries_full, sum_bound}
use iron_kernel.Tcp.{Tcp, tcp_sum, tcp_cksum, tcp_segment, tcp_len, tx_segment}

abbrev pub IsByte : ℕ → Type 0
IsByte x = x < 256

-- The checksum is one more word of the sum.
sum_with :
    (src : Ip) (t : Tcp) (flags c : ℕ) (payload : List ℕ)
    → c < 65536
    → tcp_sum src t.dst_ip (tcp_segment t flags c payload)
      ≡ tcp_sum src t.dst_ip (tcp_segment t flags 0 payload) + c
unfolding tcp_sum sum_words
sum_with src t flags c payload h = omega arith

small_sum :
    (src : Ip) (t : Tcp) (flags : ℕ) (payload : List ℕ)
    → flags < 256
    → All IsByte (ip_bytes src [])
    → All IsByte (ip_bytes t.dst_ip [])
    → All IsByte payload
    → length payload ≤ 1460
    → tcp_sum src t.dst_ip (tcp_segment t flags 0 payload) + 65535 < 2 ^ 32
unfolding tcp_sum sum_words
small_sum src t flags payload f s d b h = omega (arith, sum_bound 730 payload b (omega arith))

-- Where the length does not wrap, no byte of the segment is cut off.
pub tx_segment_whole :
    (n : Net) (t : Tcp) (flags : ℕ) (payload : List ℕ)
    → length payload < 65516
    → tx_segment n t flags payload
      ≡ tcp_segment t flags (tcp_cksum n.net_ip t.dst_ip (tcp_segment t flags 0 payload)) payload
tx_segment_whole n t flags payload short =
    let all = λ (c : ℕ). take_all (tcp_len payload) (tcp_segment t flags c payload) (omega arith) in
    let sum = λ (seg : List ℕ). tcp_cksum n.net_ip t.dst_ip seg in
    ap (λ seg. take (tcp_len payload) (tcp_segment t flags (sum seg) payload)) (all 0)
    ∙ all (sum (tcp_segment t flags 0 payload))

-- A segment that `tcp_tx` builds checks at the receiver: with the checksum in it, the sum over the
-- pseudo-header and the segment has the checksum 0.
pub tx_segment_checks :
    (n : Net) (t : Tcp) (flags : ℕ) (payload : List ℕ)
    → flags < 256
    → All IsByte (ip_bytes n.net_ip [])
    → All IsByte (ip_bytes t.dst_ip [])
    → All IsByte payload
    → length payload ≤ 1460
    → tcp_cksum n.net_ip t.dst_ip (tx_segment n t flags payload) ≡ 0
unfolding tcp_cksum
tx_segment_checks n t flags payload f s d b h =
    let sum = tcp_sum n.net_ip t.dst_ip (tcp_segment t flags 0 payload) in
    let c = 65535 - fold_carries 4 sum in
    let full = fold_carries_full sum (small_sum n.net_ip t flags payload f s d b h) in
    ap (λ (seg : List ℕ). 65535 - fold_carries 4 (tcp_sum n.net_ip t.dst_ip seg))
      (tx_segment_whole n t flags payload (omega arith))
    ∙ (ap (λ (x : ℕ). 65535 - fold_carries 4 x) (sum_with n.net_ip t flags c payload (omega arith))
        ∙ omega arith)
