-- ===== src/Tcp/Closed.antt =====
-- `http_get` of src/drivers/tcp.c on every outcome.
use iron_kernel.Prelude.{
  ℕ, zero, suc, ◌+◌, ◌≤◌, ◌≡◌, refl, Bool, true, false, not, Option, none, some, List, [], ◌∷◌,
  arith, ltb, leb, ◌==◌, if_split, if◌then◌else◌, length, length-take, take, u32,
}
use iron_kernel.Arp.{Ip, Mac}
use iron_kernel.Tcp.{
  State, closed, syn_sent, established, Host, Turn, tcp_rx_size, tcp_syn, tcp_ack, tcp_fin, start,
}
use iron_kernel.Tcp.Machine.{
  is_established, is_closed, elapsed, shut, pump, resend_syn, connect_loop, tcp_connect,
  tcp_send_data, tcp_recv_data, tcp_close, tcp_tx,
}
use iron_kernel.Tcp.Http.{
  http_request, after_headers, or_whole, http_body, connect_tries, response, http_get,
}

-- A body, when there is one, that a buffer holds.
abbrev pub Fits : ℕ → Option (List ℕ) → Type 0
Fits maxlen none = Unit
Fits maxlen (some body) = length body ≤ maxlen

module _ (resolve : Ip → Option Mac) (my_mac : Mac) where
  -- A connection that was not made is closed.
  connect_loop-closed :
      (t0 t_syn syn_seq : ℕ) (turns : List Turn) (h : Host)
      → let r = connect_loop resolve my_mac t0 t_syn syn_seq turns h in
        r.0 ≡ false → r.1.1.state ≡ closed
  unfolding connect_loop
  connect_loop-closed t0 t_syn syn_seq [] (n, t) = λ e. refl
  connect_loop-closed t0 t_syn syn_seq (turn ∷ turns) h =
      let h1 = pump resolve my_mac turn h in
      let r = resend_syn resolve my_mac turn.tick t_syn syn_seq h1 in
      let rest = connect_loop resolve my_mac t0 r.0 syn_seq turns r.1 in
      let late = if leb 500 (elapsed turn.tick t0) then (false, shut r.1) else rest in
      let failed = if is_closed h1.1.state then (false, h1) else late in
      if_split Q (is_established h1.1.state) (true, h1) failed (λ z. λ e. absurd (cc e))
        λ z.
          if_split Q (is_closed h1.1.state) (false, h1) late (λ y. λ e. is h1.1.state y)
            λ y.
              if_split Q (leb 500 (elapsed turn.tick t0)) (false, shut r.1) rest (λ x. λ e. refl)
                λ x. connect_loop-closed t0 r.0 syn_seq turns r.1
    where
      Q : Bool × Host → Type 0
      Q r = r.0 ≡ false → r.1.1.state ≡ closed

      is : (s : State) → is_closed s ≡ true → s ≡ closed
      is closed z = refl
      is syn_sent z = cc z
      is established z = cc z

  tcp_connect-closed :
      (now : ℕ) (ip : Ip) (port : ℕ) (turns : List Turn) (h : Host)
      → let r = tcp_connect resolve my_mac now ip port turns h in r.0 ≡ false → r.1.1.state ≡ closed
  unfolding tcp_connect
  tcp_connect-closed now ip port turns (n, t) =
      let t1 = start now ip port t in
      let r = tcp_tx resolve my_mac now tcp_syn [] (n, t1) in
      let h2 : Host = (r.1.0, record r.1.1 { seq = u32 (t1.seq + 1) }) in
      if_split (λ (r : Bool × Host). r.0 ≡ false → r.1.1.state ≡ closed) r.0
        (connect_loop resolve my_mac now now t1.seq (take 50000000 turns) h2) (false, shut r.1)
        (λ z. connect_loop-closed now now t1.seq (take 50000000 turns) h2) λ z. λ e. refl

  connect_tries-closed :
      (ip : Ip) (port : ℕ) (tries : ℕ → ℕ × List Turn) (k i : ℕ) (h : Host)
      → (k ≡ 0 → h.1.state ≡ closed)
      → let r = connect_tries resolve my_mac ip port tries k i h in
        r.0 ≡ false → r.1.1.state ≡ closed
  unfolding connect_tries
  connect_tries-closed ip port tries zero i h c = λ e. c refl
  connect_tries-closed ip port tries (suc k) i h c =
      let r = tcp_connect resolve my_mac (tries i).0 ip port (tries i).1 h in
      let rest = connect_tries resolve my_mac ip port tries k (i + 1) r.1 in
      if_split (λ (r : Bool × Host). r.0 ≡ false → r.1.1.state ≡ closed) r.0 (true, r.1) rest
        (λ z. λ e. absurd (cc e))
        λ z.
          connect_tries-closed ip port tries k (i + 1) r.1
            λ none_left. tcp_connect-closed (tries i).0 ip port (tries i).1 h z

  tcp_close-closed : (now : ℕ) (h : Host) → (tcp_close resolve my_mac now h).1.state ≡ closed
  unfolding tcp_close
  tcp_close-closed now (n, t) =
      let h = (tcp_tx resolve my_mac now (tcp_fin + tcp_ack) [] (n, t)).1 in
      if_split (λ (r : Host). r.1.state ≡ closed) (is_established t.state)
        (shut (h.0, record h.1 { seq = u32 (h.1.seq + 1) })) (shut (n, t)) (λ z. refl) λ z. refl

  http_body-Fits : (maxlen : ℕ) (raw : List ℕ) → length (http_body maxlen raw) ≤ maxlen
  unfolding http_body
  http_body-Fits maxlen raw =
      let body = or_whole (after_headers raw) raw in
      let k = if ltb maxlen (length body) then maxlen else length body in
      let small : k ≤ maxlen = least (length body) in omega (arith, length-take k body)
    where
      least : (n : ℕ) → (if ltb maxlen n then maxlen else n) ≤ maxlen
      least n = ground arith

  -- `http_get` leaves the connection closed on every outcome, whatever the peer sends and whenever a step fails,
  -- and a body that it gives fits the caller's buffer.
  pub http_get-closed :
      (ip : Ip) (port : ℕ) (host path : List ℕ) (maxlen : ℕ) (tries : ℕ → ℕ × List Turn) (now : ℕ)
      (recv : ℕ × List Turn) (last : ℕ) (h : Host)
      → let r = http_get resolve my_mac ip port host path maxlen tries now recv last h in
        (r.1.1.state ≡ closed) × Fits maxlen r.0
  unfolding http_get response
  http_get-closed ip port host path maxlen tries now recv last h =
      let c = connect_tries resolve my_mac ip port tries 3 0 h in
      let s = tcp_send_data resolve my_mac now (http_request host path) c.1 in
      let lost : Option (List ℕ) × Host = (none, tcp_close resolve my_mac last s.1) in
      let got = response resolve my_mac maxlen recv last s.1 in
      let asked = if not s.0 then lost else got in
      if_split Q (not c.0) (none, c.1) asked
        (λ z.
          (connect_tries-closed ip port tries 3 0 h (λ e. absurd (omega arith)) (off c.0 z), tt))
        λ z.
          if_split Q (not s.0) lost got (λ y. (tcp_close-closed last s.1, tt))
            λ y.
              let d = tcp_recv_data resolve my_mac tcp_rx_size 1000 recv.0 recv.1 s.1 in
              (
                tcp_close-closed last d.1,
                if_split (Fits maxlen) (length d.0 == 0) none (some (http_body maxlen d.0))
                    (λ w. tt) λ w. http_body-Fits maxlen d.0,
              )
    where
      Q : Option (List ℕ) × Host → Type 0
      Q r = (r.1.1.state ≡ closed) × Fits maxlen r.0

      off : (b : Bool) → not b ≡ true → b ≡ false
      off true e = cc e
      off false e = refl
