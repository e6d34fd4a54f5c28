-- ===== src/Tcp/Tests.antt =====
-- Runs of the TCP client, and the theorems at concrete connections.
use iron_kernel.Prelude.{
  ℕ, ◌+◌, ◌≡◌, refl, true, false, Option, none, some, List, [], ◌∷◌, ◌++◌, arith, take, u32, get_or,
}
use iron_kernel.Arp.{Ip, Mac, Cache, no_mac, broadcast}
use iron_kernel.Internet.{Net, ip_send, ip_send_to}
use iron_kernel.Tcp.{
  State, closed, syn_sent, established, Retx, Tcp, Host, Turn, tcp_rx_size, tcp_ack, tcp_syn,
  tcp_rst, has, be32_at, is_from_peer,
}
use iron_kernel.Tcp.Machine.{tcp_tx, tx_done, on_syn_sent, on_segment, tcp_recv_frame}
use iron_kernel.Tcp.Valid.{IsValid}
use iron_kernel.Tcp.Calls.{Call, recv_frame, connect, send_data, close, run, run-IsValid}
use iron_kernel.Tcp.Handshake.{established_by_peer}
use iron_kernel.Tcp.Stream.{concat, recv_frames, recv_frames_lem}
use iron_kernel.Tcp.Http.{http_get, after_headers}
use iron_kernel.Tcp.Closed.{Fits, http_get-closed}

abbrev guest : Ip
guest = record { ip0 = 10; ip1 = 0; ip2 = 2; ip3 = 15 }

abbrev gateway : Ip
gateway = record { ip0 = 10; ip1 = 0; ip2 = 2; ip3 = 2 }

abbrev empty_cache : Cache
empty_cache i = record { ip = guest; mac = no_mac; valid = false }

abbrev net : Net
net = record {
  net_ip = guest;
  net_gw = gateway;
  ip_id = 1;
  udp_rx = [];
  udp_rx_port = 0;
  ping_got = false;
  ping_ticks = 0;
  ping_id = 0;
  ping_seq = 0;
  arp_cache = empty_cache;
}

abbrev no_retx : Retx
no_retx = record { seg = []; seq_end = 0; sent_tick = 0; active = false; retries = 0 }

-- a segment of 21 bytes that waits for its acknowledgement
abbrev waiting : Retx
waiting = record {
  seg = 0 ∷ 80 ∷ 0 ∷ 80 ∷ 0 ∷ 0 ∷ 0 ∷ 0 ∷ 0 ∷ 0 ∷ 0 ∷ 0 ∷ 80 ∷ 24 ∷ 16 ∷ 0 ∷ 0 ∷ 0 ∷ 0 ∷ 0 ∷ 7 ∷ [];
  seq_end = 1;
  sent_tick = 0;
  active = true;
  retries = 3;
}

-- A connection to port 80 of the gateway from port 49152.
abbrev client : State → Retx → Tcp
client s r = record {
  isn_state = 0;
  dst_ip = gateway;
  dst_port = 80;
  src_port = 49152;
  seq = 1000;
  ack = 0;
  state = s;
  rx_buf = [];
  rx_fin = false;
  retx = r;
  next_port = 49153;
  sent = [];
}

abbrev silent : Ip → Option Mac
silent ip = none

abbrev answered : Ip → Option Mac
answered ip = some broadcast

-- A segment from port 80 of the gateway with given flags, number 256 * 7, 22 bytes of TCP and the two
-- bytes 5 and 6 of data.
abbrev segment : (flags : ℕ) → ℕ → ℕ
segment flags i =
    get_or
      (0 ∷ 0 ∷ 0 ∷ 0 ∷ 0 ∷ 0 ∷ 0 ∷ 0 ∷ 0 ∷ 0 ∷ 0 ∷ 0 ∷ 8 ∷ 0 ∷ 0x45 ∷ 0 ∷ 0 ∷ 42 ∷ 0 ∷ 0 ∷ 0 ∷ 0
        ∷ 64 ∷ 6 ∷ 0 ∷ 0 ∷ 10 ∷ 0 ∷ 2 ∷ 2 ∷ 10 ∷ 0 ∷ 2 ∷ 15 ∷ 0 ∷ 80 ∷ 192 ∷ 0 ∷ 0 ∷ 0 ∷ 7 ∷ 0 ∷ 0
        ∷ 0 ∷ 3 ∷ 232 ∷ 0x50 ∷ flags ∷ 0 ∷ 0 ∷ 0 ∷ 0 ∷ 0 ∷ 0 ∷ 5 ∷ 6 ∷ [])
      i 0

abbrev fresh : Host
fresh = (net, client closed no_retx)

abbrev one_turn : List Turn
one_turn = record { buf = segment 0x12; rlen = some 56; tick = 5 } ∷ []

abbrev calls : List Call
calls =
    connect 1 gateway 80 one_turn
    ∷ send_data 6 (1 ∷ 2 ∷ [])
    ∷ recv_frame 7 (segment 0x11) 56
    ∷ close 9
    ∷ []

run-IsValid_example : IsValid (run answered no_mac calls fresh).1
run-IsValid_example =
    run-IsValid answered no_mac calls fresh (tt, (omega arith, (tt, (tt, tt))))
      (omega arith, omega arith, omega arith, (λ f. refl), λ a. absurd (cc a))

established_by_peer_example :
    (◌≡◌ {A = State} syn_sent syn_sent)
    × (is_from_peer (segment 0x12) 56 (client syn_sent no_retx) ≡ true)
    × (has 0x12 tcp_rst ≡ false)
    × (has 0x12 tcp_syn ≡ true)
    × (has 0x12 tcp_ack ≡ true)
    × ((tcp_recv_frame silent no_mac 5 (segment 0x12) 56 (net, client syn_sent no_retx)).1.ack
        ≡ u32 (be32_at (segment 0x12) 38 + 1))
established_by_peer_example =
    established_by_peer silent no_mac 5 (segment 0x12) 56 net (client syn_sent no_retx) (λ e. cc e)
      (unfold tcp_recv_frame on_segment on_syn_sent tcp_tx tx_done ip_send ip_send_to in refl)

abbrev two_segments : List ((ℕ → ℕ) × ℕ)
two_segments = (segment 0x10, 56) ∷ (segment 0x18, 56) ∷ []

recv_frames_lem_example :
    ((recv_frames silent no_mac 5 two_segments (net, client established no_retx)).1.state
      ≡ established)
    × ((recv_frames silent no_mac 5 two_segments (net, client established no_retx)).1.rx_buf
        ≡ take tcp_rx_size ([] ++ concat two_segments))
recv_frames_lem_example =
    recv_frames_lem silent no_mac 5 two_segments net (client established no_retx) refl (omega arith)
      ((refl, refl, refl), ((refl, refl, refl), tt))

two_and_two : concat two_segments ≡ 5 ∷ 6 ∷ 5 ∷ 6 ∷ []
two_and_two = refl

abbrev raw : List ℕ
raw = b'O' ∷ b'K' ∷ 13 ∷ 10 ∷ 13 ∷ 10 ∷ b'h' ∷ b'i' ∷ []

body : after_headers raw ≡ some (b'h' ∷ b'i' ∷ [])
unfolding after_headers
body = refl

-- Three attempts without an answer.
http_get-closed_example :
    let r = http_get answered no_mac gateway 80 [] [] 100 (λ i. (0, [])) 0 (0, []) 0 fresh in
    (r.1.1.state ≡ closed) × Fits 100 r.0
http_get-closed_example =
    http_get-closed answered no_mac gateway 80 [] [] 100 (λ i. (0, [])) 0 (0, []) 0 fresh
