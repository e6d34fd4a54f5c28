-- ===== src/Tcp/Calls.antt =====
-- The calls of src/drivers/tcp.c keep its variables valid, one by one and in any sequence.
use iron_kernel.Prelude.{
  ℕ, ◌+◌, ◌^◌, ◌<◌, refl, Bool, true, false, ◌||◌, not, Option, List, [], ◌∷◌, arith, leb,
  if◌then◌else◌, length, take, u32, All,
}
use iron_kernel.Arp.{Ip, Mac}
use iron_kernel.Tcp.{Host, Turn, tcp_rto_ticks, tcp_ack, tcp_fin, tcp_syn, start, tcp_gen_isn}
use iron_kernel.Tcp.Machine.{
  is_established, is_closed, elapsed, shut, tcp_tx, tcp_recv_frame, pump, resend_syn, connect_loop,
  tcp_connect, tcp_send_data, recv_loop, tcp_recv_data, tcp_close,
}
use iron_kernel.Tcp.Valid.{
  IsValid, host-IsValid, if_answer, if_second, tcp_tx-IsValid, pump-IsValid, tcp_recv_frame-IsValid,
}

module _ (resolve : Ip → Option Mac) (my_mac : Mac) where
  resend_syn-IsValid :
      (now t_syn syn_seq : ℕ) (h : Host)
      → syn_seq < 2 ^ 32
      → IsValid h.1
      → IsValid (resend_syn resolve my_mac now t_syn syn_seq h).1.1
  unfolding resend_syn
  resend_syn-IsValid now t_syn syn_seq (n, t) q (a, b, c, d, e) =
      let h = (tcp_tx resolve my_mac now tcp_syn [] (n, record t { seq = syn_seq })).1 in
      let (a', b', c', d', e') =
        tcp_tx-IsValid resolve my_mac now tcp_syn [] n (record t { seq = syn_seq }) (omega arith)
          (a, q, c, d, e) in
      if_second (leb tcp_rto_ticks (elapsed now t_syn))
        (now, (h.0, record h.1 { seq = u32 (syn_seq + 1) })) (t_syn, (n, t))
        (a', omega arith, c', d', e') (a, b, c, d, e)

  connect_loop-IsValid :
      (t0 t_syn syn_seq : ℕ) (turns : List Turn) (h : Host)
      → syn_seq < 2 ^ 32
      → IsValid h.1
      → IsValid (connect_loop resolve my_mac t0 t_syn syn_seq turns h).1.1
  unfolding connect_loop
  connect_loop-IsValid t0 t_syn syn_seq [] (n, t) q (a, b, c, d, e) = (a, b, c, (λ f. refl), e)
  connect_loop-IsValid t0 t_syn syn_seq (turn ∷ turns) h q v =
      let h1 = pump resolve my_mac turn h in
      let v1 = pump-IsValid resolve my_mac turn h v in
      let r = resend_syn resolve my_mac turn.tick t_syn syn_seq h1 in
      let v2 = resend_syn-IsValid turn.tick t_syn syn_seq h1 q v1 in
      let rest = connect_loop resolve my_mac t0 r.0 syn_seq turns r.1 in
      let late = if leb 500 (elapsed turn.tick t0) then (false, shut r.1) else rest in
      let open_still = if is_closed h1.1.state then (false, h1) else late in
      if_answer (is_established h1.1.state) (true, h1) open_still v1
        (if_answer (is_closed h1.1.state) (false, h1) late v1
          (if_answer (leb 500 (elapsed turn.tick t0)) (false, shut r.1) rest
            (v2.0, v2.1, v2.2, (λ f. refl), v2.4)
            (connect_loop-IsValid t0 r.0 syn_seq turns r.1 q v2)))

  -- `tcp_connect` leaves valid variables on every outcome.
  pub tcp_connect-IsValid :
      (now : ℕ) (ip : Ip) (port : ℕ) (turns : List Turn) (h : Host)
      → IsValid h.1
      → IsValid (tcp_connect resolve my_mac now ip port turns h).1.1
  unfolding tcp_connect start tcp_gen_isn
  tcp_connect-IsValid now ip port turns (n, t) v =
      let t1 = start now ip port t in
      let v1 : IsValid t1 = (omega arith, omega arith, omega arith, (λ f. absurd (cc f)), v.4) in
      let r = tcp_tx resolve my_mac now tcp_syn [] (n, t1) in
      let v2 = tcp_tx-IsValid resolve my_mac now tcp_syn [] n t1 (omega arith) v1 in
      let h2 : Host = (r.1.0, record r.1.1 { seq = u32 (t1.seq + 1) }) in
      if_answer r.0 (connect_loop resolve my_mac now now t1.seq (take 50000000 turns) h2)
        (false, shut r.1)
        (connect_loop-IsValid now now t1.seq (take 50000000 turns) h2 (omega arith)
          (v2.0, omega arith, v2.2, v2.3, v2.4))
        (v2.0, v2.1, v2.2, (λ f. refl), v2.4)

  pub tcp_send_data-IsValid :
      (now : ℕ) (payload : List ℕ) (h : Host)
      → length payload < 65516
      → IsValid h.1
      → IsValid (tcp_send_data resolve my_mac now payload h).1.1
  unfolding tcp_send_data
  tcp_send_data-IsValid now payload (n, t) short v =
      let r = tcp_tx resolve my_mac now 0x18 payload (n, t) in
      let v1 = tcp_tx-IsValid resolve my_mac now 0x18 payload n t short v in
      let done : Bool × Host =
        (true, (r.1.0, record r.1.1 { seq = u32 (r.1.1.seq + length payload) })) in
      let tried = if r.0 then done else (false, r.1) in
      if_answer (not (is_established t.state)) (false, (n, t)) tried v
        (if_answer r.0 done (false, r.1) (v1.0, omega arith, v1.2, v1.3, v1.4) v1)

  recv_loop-IsValid :
      (t0 timeout_ticks : ℕ) (turns : List Turn) (h : Host)
      → IsValid h.1
      → IsValid (recv_loop resolve my_mac t0 timeout_ticks turns h).1
  unfolding recv_loop
  recv_loop-IsValid t0 timeout_ticks [] h v = v
  recv_loop-IsValid t0 timeout_ticks (turn ∷ turns) h v =
      let h1 = pump resolve my_mac turn h in
      let v1 = pump-IsValid resolve my_mac turn h v in
      let rest = recv_loop resolve my_mac t0 timeout_ticks turns h1 in
      let more = if leb timeout_ticks (elapsed turn.tick t0) then h1 else rest in
      host-IsValid (h1.1.rx_fin || is_closed h1.1.state) h1 more (λ z. v1)
        λ z.
          host-IsValid (leb timeout_ticks (elapsed turn.tick t0)) h1 rest (λ y. v1)
            λ y. recv_loop-IsValid t0 timeout_ticks turns h1 v1

  pub tcp_close-IsValid :
      (now : ℕ) (h : Host) → IsValid h.1 → IsValid (tcp_close resolve my_mac now h).1
  unfolding tcp_close
  tcp_close-IsValid now (n, t) v =
      let h = (tcp_tx resolve my_mac now (tcp_fin + tcp_ack) [] (n, t)).1 in
      let v1 = tcp_tx-IsValid resolve my_mac now (tcp_fin + tcp_ack) [] n t (omega arith) v in
      host-IsValid (is_established t.state) (shut (h.0, record h.1 { seq = u32 (h.1.seq + 1) }))
        (shut (n, t)) (λ z. (v1.0, omega arith, v1.2, (λ f. refl), v1.4))
        λ z. (v.0, v.1, v.2, (λ f. refl), v.4)

-- A call of one of the functions that tcp.h declares.
pub data Call : Type 0 where
  recv_frame : (now : ℕ) (buf : ℕ → ℕ) (len : ℕ) → Call
  connect : (now : ℕ) (ip : Ip) (port : ℕ) (turns : List Turn) → Call
  send_data : (now : ℕ) (payload : List ℕ) → Call
  recv_data : (maxlen timeout_ticks now : ℕ) (turns : List Turn) → Call
  close : (now : ℕ) → Call

-- A call that sends so few bytes that the length of the segment does not wrap.
abbrev pub IsShort : Call → Type 0
IsShort (recv_frame now buf len) = Unit
IsShort (connect now ip port turns) = Unit
IsShort (send_data now payload) = length payload < 65516
IsShort (recv_data maxlen timeout_ticks now turns) = Unit
IsShort (close now) = Unit

module _ (resolve : Ip → Option Mac) (my_mac : Mac) where
  unfoldable pub call : Call → Host → Host
  call (recv_frame now buf len) h = tcp_recv_frame resolve my_mac now buf len h
  call (connect now ip port turns) h = (tcp_connect resolve my_mac now ip port turns h).1
  call (send_data now payload) h = (tcp_send_data resolve my_mac now payload h).1
  call (recv_data maxlen timeout_ticks now turns) h =
      (tcp_recv_data resolve my_mac maxlen timeout_ticks now turns h).1
  call (close now) h = tcp_close resolve my_mac now h

  unfoldable pub run : List Call → Host → Host
  run [] h = h
  run (c ∷ calls) h = run calls (call c h)

  call-IsValid : (c : Call) (h : Host) → IsShort c → IsValid h.1 → IsValid (call c h).1
  unfolding call tcp_recv_data
  call-IsValid (recv_frame now buf len) (n, t) short v =
      tcp_recv_frame-IsValid resolve my_mac now buf len n t v
  call-IsValid (connect now ip port turns) h short v =
      tcp_connect-IsValid resolve my_mac now ip port turns h v
  call-IsValid (send_data now payload) h short v =
      tcp_send_data-IsValid resolve my_mac now payload h short v
  call-IsValid (recv_data maxlen timeout_ticks now turns) h short v =
      recv_loop-IsValid resolve my_mac now timeout_ticks (take 200000000 turns) h v
  call-IsValid (close now) h short v = tcp_close-IsValid resolve my_mac now h v

  -- Over any sequence of calls, with any frames and at any ticks, where tcp_send_data gets fewer than 65516
  -- bytes, valid variables of tcp.c stay valid:
  -- the received bytes fit their array, the sequence numbers are 32-bit numbers, a received FIN
  -- means that the connection is closed, and a segment that waits for its acknowledgement fits
  -- its array, has a header and was sent again at most TCP_MAX_RETX times.
  pub run-IsValid :
      (calls : List Call) (h : Host) → All IsShort calls → IsValid h.1 → IsValid (run calls h).1
  unfolding run
  run-IsValid [] h short v = v
  run-IsValid (c ∷ calls) h (one, more) v =
      run-IsValid calls (call c h) more (call-IsValid c h one v)
