-- ===== src/Internet/Tests.antt =====
-- Runs of the internet layer, and the theorems at concrete datagrams.
use iron_kernel.Prelude.{
  ℕ, ◌%◌, ◌<◌, ◌≡◌, ◌↔◌, refl, some, false, List, [], ◌∷◌, arith, ◌==◌, if◌then◌else◌, length,
}
use iron_kernel.Arp.{Ip, Cache, no_mac, broadcast}
use iron_kernel.Internet.{Net, sum_words, fold_carries, net_checksum, udp_send, net_recv, udp_recv}
use iron_kernel.Internet.Checksum.{fold_carries_lem}
use iron_kernel.Internet.Datagrams.{received, udp_recv-udp_send}

abbrev guest : Ip
guest = record { ip0 = 10; ip1 = 0; ip2 = 2; ip3 = 15 }

abbrev gateway : Ip
gateway = record { ip0 = 10; ip1 = 0; ip2 = 2; ip3 = 2 }

abbrev empty_cache : Cache
empty_cache i = record { ip = guest; mac = no_mac; valid = false }

abbrev host : Ip → ℕ → Net
host ip port = record {
  net_ip = ip;
  net_gw = gateway;
  ip_id = 1;
  udp_rx = [];
  udp_rx_port = port;
  ping_got = false;
  ping_ticks = 0;
  ping_id = 0;
  ping_seq = 0;
  arp_cache = empty_cache;
}

-- the header of RFC 1071's example
abbrev words : List ℕ
words = 0x00 ∷ 0x01 ∷ 0xf2 ∷ 0x03 ∷ 0xf4 ∷ 0xf5 ∷ 0xf6 ∷ 0xf7 ∷ []

rfc_sum : net_checksum words ≡ 0x220d
unfolding net_checksum fold_carries sum_words
rfc_sum = refl

fold_carries_lem_example :
    (fold_carries 4 0x2ddf0 < 65536)
    × (fold_carries 4 0x2ddf0 % 65535 ≡ 0x2ddf0 % 65535)
    × ((fold_carries 4 0x2ddf0 ≡ 0) ↔ (◌≡◌ {A = ℕ} 0x2ddf0 0))
fold_carries_lem_example = fold_carries_lem 0x2ddf0 (omega arith)

udp_recv-udp_send_example :
    (frame : List ℕ) × ((udp_send
        (λ ip. some broadcast)
        no_mac
        gateway
        5000
        53
        (1 ∷ 2 ∷ 3 ∷ [])
        (host guest 0)).0
      ≡ some frame)
    × (let r =
          (net_recv {T = ℕ}
            (λ b l t. t)
            broadcast
            0
            (received frame)
            (length frame)
            (host gateway 53, 0)).0.0 in
        ((udp_recv 512 r).0 ≡ 1 ∷ 2 ∷ 3 ∷ []) × ((udp_recv 512 (udp_recv 512 r).1).0 ≡ []))
udp_recv-udp_send_example =
    udp_recv-udp_send (λ b l t. t) (λ ip. some broadcast) no_mac broadcast gateway 5000 53 0
      (1 ∷ 2 ∷ 3 ∷ []) (host guest 0) (host gateway 53) 0 refl (omega arith) (omega arith)
      (omega arith) refl

-- a frame to port 53 with the length 7
abbrev short_frame : ℕ → ℕ
short_frame i = if i == 37 then 53 else if i == 39 then 7 else 0
