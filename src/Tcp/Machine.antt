-- ===== src/Tcp/Machine.antt =====
-- The operations of src/drivers/tcp.c on the state of the connection and that of ip.c. The answers of
-- `arp_resolve`, and the address of the card, are fixed; a call of `pit_get_ticks` is an argument.
use iron_kernel.Prelude.{
  ℕ, ◌+◌, ◌-◌, ◌^◌, Bool, true, false, ◌&&◌, ◌||◌, not, Option, none, some, List, [], ◌∷◌, ltb, leb,
  ◌==◌, if◌then◌else◌, length, take, min, u32,
}
use iron_kernel.Arp.{Ip, Mac}
use iron_kernel.Internet.{Net, bytes_at, ip_send, net_recv}
use iron_kernel.Tcp.{
  State, closed, syn_sent, established, Tcp, Host, Turn, tcp_max_retx, tcp_rto_ticks, tcp_ack,
  tcp_fin, tcp_syn, tcp_rst, has, be32_at, tcp_len, tx_segment, is_sent, log, arm, store,
  is_from_peer, hdr_bytes, data_len, take_ack, refresh, on_fin, start,
}

abbrev pub is_established : State → Bool
is_established closed = false
is_established syn_sent = false
is_established established = true

abbrev pub is_closed : State → Bool
is_closed closed = true
is_closed syn_sent = false
is_closed established = false

-- `pit_get_ticks() - since`
abbrev pub elapsed : (now since : ℕ) → ℕ
elapsed now since = u32 (now + 2 ^ 32 - since)

-- `g_tcp.state = TCP_CLOSED;`
abbrev pub shut : Host → Host
shut (n, t) = (n, record t { state = closed })

-- What `tcp_tx` does with the frame of a segment.
unfoldable pub tx_done :
    (now : ℕ) → (seg payload : List ℕ) → Option (List ℕ) × Net → Tcp → Bool × Host
tx_done now seg payload (frame, n) t =
    (is_sent frame, (n, if is_sent frame then arm now seg payload (log frame t) else t))

module _ (resolve : Ip → Option Mac) (my_mac : Mac) where
  -- The length of `payload` is a `uint16_t`. From 65516 on `tcp_len` wraps and passes the test: the copy
  -- of the data then writes past the array, which is not modelled, and the segment that is sent and kept
  -- has fewer than 20 bytes.
  unfoldable pub tcp_tx : (now flags : ℕ) → (payload : List ℕ) → Host → Bool × Host
  tcp_tx now flags payload (n, t) =
      let seg = tx_segment n t flags payload in
      if ltb 1480 (tcp_len payload)
      then (false, (n, t))
      else tx_done now seg payload (ip_send resolve my_mac t.dst_ip 6 seg n) t

  -- A segment in the state TCP_SYN_SENT.
  unfoldable pub on_syn_sent : (now : ℕ) → (buf : ℕ → ℕ) → Host → Host
  on_syn_sent now buf (n, t) =
      if has (buf 47) tcp_syn && has (buf 47) tcp_ack
      then (tcp_tx now tcp_ack []
          (n, record t { ack = u32 (be32_at buf 38 + 1); state = established })).1
      else (n, t)

  -- The data of a segment, and the acknowledgement of it.
  unfoldable pub on_data : (now : ℕ) → (buf : ℕ → ℕ) → Host → Host
  on_data now buf (n, t) =
      let k = data_len buf in
      if k == 0
      then (n, t)
      else (tcp_tx now tcp_ack [] (
        n,
        record (store (bytes_at buf (34 + hdr_bytes buf) k) t) { ack = u32 (be32_at buf 38 + k) },
      )).1

  -- A FIN of the server.
  unfoldable pub on_end : (now : ℕ) → (buf : ℕ → ℕ) → Host → Host
  on_end now buf (n, t) =
      let h =
        (tcp_tx now (tcp_ack + tcp_fin) []
          (n, record t { ack = u32 (be32_at buf 38 + data_len buf + 1) })).1 in
      if has (buf 47) tcp_fin then (h.0, on_fin h.1) else (n, t)

  -- A segment of the peer without RST.
  unfoldable pub on_segment : State → (now : ℕ) → (buf : ℕ → ℕ) → Host → Host
  on_segment closed now buf h = h
  on_segment syn_sent now buf h = on_syn_sent now buf h
  on_segment established now buf (n, t) = on_end now buf (on_data now buf (n, take_ack buf t))

  unfoldable pub tcp_recv_frame : (now : ℕ) → (buf : ℕ → ℕ) → (len : ℕ) → Host → Host
  tcp_recv_frame now buf len (n, t) =
      if is_closed t.state
      then (n, t)
      else if not (is_from_peer buf len t)
      then (n, t)
      else if has (buf 47) tcp_rst
      then shut (n, t)
      else on_segment t.state now buf (n, t)

  -- The last part of `retx_check`: the segment goes out again.
  unfoldable pub resend : (now : ℕ) → Host → Host
  resend now (n, t) =
      let seg = refresh n.net_ip t in
      let (frame, n1) = ip_send resolve my_mac t.dst_ip 6 seg n in
      (
        n1,
        record (log frame t) {
          retx = record t.retx { seg = seg; sent_tick = now; retries = t.retx.retries + 1 };
        },
      )

  unfoldable pub retx_check : (now : ℕ) → Host → Host
  retx_check now (n, t) =
      let again = resend now (n, t) in
      if not t.retx.active
      then (n, t)
      else if not (is_established t.state)
      then (n, record t { retx = record t.retx { active = false } })
      else if ltb (elapsed now t.retx.sent_tick) tcp_rto_ticks
      then (n, t)
      else if ltb tcp_max_retx (t.retx.retries + 1)
      then (
        n,
        record t {
          state = closed;
          retx = record t.retx { active = false; retries = t.retx.retries + 1 };
        },
      )
      else again

  -- `net_recv` on a frame, and the answer of arp.c if it has one.
  unfoldable pub take_frame : (now : ℕ) → (buf : ℕ → ℕ) → Option ℕ → Host → Host
  take_frame now buf none h = h
  take_frame now buf (some len) h =
      let (h1, reply) = net_recv (tcp_recv_frame now) my_mac now buf len h in (h1.0, log reply h1.1)

  unfoldable pub pump : Turn → Host → Host
  pump turn h = retx_check turn.tick (take_frame turn.tick turn.buf turn.rlen h)

  -- The SYN goes out again after a second without an answer: the time it went, and the state.
  unfoldable pub resend_syn : (now t_syn syn_seq : ℕ) → Host → ℕ × Host
  resend_syn now t_syn syn_seq (n, t) =
      let h = (tcp_tx now tcp_syn [] (n, record t { seq = syn_seq })).1 in
      if leb tcp_rto_ticks (elapsed now t_syn)
      then (now, (h.0, record h.1 { seq = u32 (syn_seq + 1) }))
      else (t_syn, (n, t))

  -- The waiting loop of `tcp_connect` over the turns that it may take.
  unfoldable pub connect_loop : (t0 t_syn syn_seq : ℕ) → List Turn → Host → Bool × Host
  connect_loop t0 t_syn syn_seq [] h = (false, shut h)
  connect_loop t0 t_syn syn_seq (turn ∷ turns) h =
      let h1 = pump turn h in
      let (t_syn1, h2) = resend_syn turn.tick t_syn syn_seq h1 in
      let rest = connect_loop t0 t_syn1 syn_seq turns h2 in
      if is_established h1.1.state
      then (true, h1)
      else if is_closed h1.1.state
      then (false, h1)
      else if leb 500 (elapsed turn.tick t0)
      then (false, shut h2)
      else rest

  -- The loop has at most 50000000 iterations.
  unfoldable pub tcp_connect : (now : ℕ) → (ip : Ip) → (port : ℕ) → List Turn → Host → Bool × Host
  tcp_connect now ip port turns (n, t) =
      let t1 = start now ip port t in
      let (ok, h) = tcp_tx now tcp_syn [] (n, t1) in
      let waited =
        connect_loop now now t1.seq (take 50000000 turns)
          (h.0, record h.1 { seq = u32 (t1.seq + 1) }) in
      if ok then waited else (false, shut h)

  unfoldable pub tcp_send_data : (now : ℕ) → (payload : List ℕ) → Host → Bool × Host
  tcp_send_data now payload (n, t) =
      let (ok, h) = tcp_tx now 0x18 payload (n, t) in
      if not (is_established t.state)
      then (false, (n, t))
      else if ok
      then (true, (h.0, record h.1 { seq = u32 (h.1.seq + length payload) }))
      else (false, h)

  -- The waiting loop of `tcp_recv_data`, over the turns that it may take.
  unfoldable pub recv_loop : (t0 timeout_ticks : ℕ) → List Turn → Host → Host
  recv_loop t0 timeout_ticks [] h = h
  recv_loop t0 timeout_ticks (turn ∷ turns) h =
      let h1 = pump turn h in
      let rest = recv_loop t0 timeout_ticks turns h1 in
      if h1.1.rx_fin || is_closed h1.1.state
      then h1
      else if leb timeout_ticks (elapsed turn.tick t0)
      then h1
      else rest

  -- The bytes copied out, after at most 200000000 iterations; they also stay in the buffer.
  unfoldable pub tcp_recv_data : (maxlen timeout_ticks now : ℕ) → List Turn → Host → List ℕ × Host
  tcp_recv_data maxlen timeout_ticks now turns h =
      let h1 = recv_loop now timeout_ticks (take 200000000 turns) h in
      (take (min (length h1.1.rx_buf) maxlen) h1.1.rx_buf, h1)

  unfoldable pub tcp_close : (now : ℕ) → Host → Host
  tcp_close now (n, t) =
      let h = (tcp_tx now (tcp_fin + tcp_ack) [] (n, t)).1 in
      if is_established t.state
      then shut (h.0, record h.1 { seq = u32 (h.1.seq + 1) })
      else shut (n, t)
