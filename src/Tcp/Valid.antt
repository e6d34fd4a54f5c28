-- ===== src/Tcp/Valid.antt =====
-- What holds of the variables of src/drivers/tcp.c in every state, whatever frames arrive: the bounds of
-- its two arrays, of its counters and its numbers, and that a FIN has closed the connection.
use iron_kernel.Prelude.{
  ℕ, ◌+◌, ◌-◌, ◌^◌, ◌≤◌, ◌<◌, ◌≡◌, ◌∙◌, refl, sym, ap, subst, inl, inr, Bool, true, false, not,
  Option, none, some, List, [], ◌++◌, arith, ltb, Bool-cases, if_true, if_false, if◌then◌else◌,
  length, length-append, length-take, length-drop, take, drop, u32,
}
use iron_kernel.Arp.{Ip, Mac}
use iron_kernel.Internet.{Net, bytes_at, be16, ip_send, net_recv}
use iron_kernel.Internet.Datagrams.{net_recv_cases}
use iron_kernel.Tcp.{
  State, closed, syn_sent, established, Retx, Tcp, Host, Turn, tcp_rx_size, tcp_max_retx,
  tcp_rto_ticks, tcp_ack, tcp_fin, tcp_rst, has, be32, be32_at, tcp_cksum, tcp_len, tx_segment, log,
  arm, store, is_from_peer, hdr_bytes, data_len, patch, take_ack, refresh, on_fin,
}
use iron_kernel.Tcp.Checksum.{tx_segment_whole}
use iron_kernel.Tcp.Machine.{
  is_established, is_closed, elapsed, shut, tx_done, tcp_tx, on_syn_sent, on_data, on_end,
  on_segment, tcp_recv_frame, resend, retx_check, take_frame, pump,
}

-- A segment that waits for its acknowledgement fits `seg`, and was not sent again more than
-- TCP_MAX_RETX times.
abbrev pub IsRetx : Retx → Type 0
IsRetx r =
    r.active ≡ true
    → (r.retries ≤ tcp_max_retx)
      × (20 ≤ length r.seg)
      × (length r.seg ≤ 1480)
      × (r.seq_end < 2 ^ 32)

abbrev pub IsValid : Tcp → Type 0
IsValid t =
    (length t.rx_buf ≤ tcp_rx_size)
    × (t.seq < 2 ^ 32)
    × (t.ack < 2 ^ 32)
    × (t.rx_fin ≡ true → t.state ≡ closed)
    × IsRetx t.retx

-- A test between two valid states gives a valid one.
if-IsValid :
    (b : Bool) (x y : Tcp)
    → (b ≡ true → IsValid x)
    → (b ≡ false → IsValid y)
    → IsValid (if b then x else y)
if-IsValid true x y p q = p refl
if-IsValid false x y p q = q refl

pub host-IsValid :
    (b : Bool) (x y : Host)
    → (b ≡ true → IsValid x.1)
    → (b ≡ false → IsValid y.1)
    → IsValid (if b then x else y).1
host-IsValid true x y p q = p refl
host-IsValid false x y p q = q refl

pub if_answer :
    (b : Bool) (x y : Bool × Host)
    → IsValid x.1.1
    → IsValid y.1.1
    → IsValid (if b then x else y).1.1
if_answer true x y p q = p
if_answer false x y p q = q

pub if_second :
    (b : Bool) (x y : ℕ × Host) → IsValid x.1.1 → IsValid y.1.1 → IsValid (if b then x else y).1.1
if_second true x y p q = p
if_second false x y p q = q

arm-IsValid :
    (now : ℕ) (seg payload : List ℕ) (t : Tcp)
    → 20 ≤ length seg
    → length seg ≤ 1480
    → IsValid t
    → IsValid (arm now seg payload t)
unfolding arm
arm-IsValid now seg payload t lo hi (a, b, c, d, e) =
    if-IsValid _ _ _ (λ z. (a, b, c, d, λ w. (omega arith, lo, hi, omega arith)))
      λ z. (a, b, c, d, e)

log-IsValid : (frame : Option (List ℕ)) (t : Tcp) → IsValid t → IsValid (log frame t)
log-IsValid none t v = v
log-IsValid (some frame) t v = v

tx_done-IsValid :
    (now : ℕ) (seg payload : List ℕ) (frame : Option (List ℕ)) (n : Net) (t : Tcp)
    → 20 ≤ length seg
    → length seg ≤ 1480
    → IsValid t
    → IsValid (tx_done now seg payload (frame, n) t).1.1
unfolding tx_done
tx_done-IsValid now seg payload none n t lo hi v = v
tx_done-IsValid now seg payload (some frame) n t lo hi v =
    arm-IsValid now seg payload _ lo hi (log-IsValid (some frame) t v)

length-patch :
    (at : ℕ) (bytes seg : List ℕ)
    → at + length bytes ≤ length seg
    → length (patch at bytes seg) ≡ length seg
length-patch at bytes seg h =
    let rest = drop (at + length bytes) seg in
    omega (
      arith,
      length-append (take at seg) (bytes ++ rest),
      length-append bytes rest,
      length-take at seg,
      length-drop (at + length bytes) seg,
    )

length-tx_segment :
    (n : Net) (t : Tcp) (flags : ℕ) (payload : List ℕ)
    → length payload < 65516
    → length (tx_segment n t flags payload) ≡ 20 + length payload
length-tx_segment n t flags payload short =
    ap length (tx_segment_whole n t flags payload short) ∙ omega arith

module _ (resolve : Ip → Option Mac) (my_mac : Mac) where
  pub tcp_tx-IsValid :
      (now flags : ℕ) (payload : List ℕ) (n : Net) (t : Tcp)
      → length payload < 65516
      → IsValid t
      → IsValid (tcp_tx resolve my_mac now flags payload (n, t)).1.1
  unfolding tcp_tx
  tcp_tx-IsValid now flags payload n t short v = elim (Bool-cases (ltb 1480 (tcp_len payload))) [
    | inl e ↦ subst (λ (r : Bool × Host). IsValid r.1.1) (sym (if_true _ _ _ e)) v
    | inr e ↦
        let seg = tx_segment n t flags payload in
        let whole : length seg ≡ 20 + length payload = length-tx_segment n t flags payload short in
        let fits : length seg ≤ 1480 = (let z = small e in omega arith) in
        subst (λ (r : Bool × Host). IsValid r.1.1) (sym (if_false _ _ _ e))
          (tx_done-IsValid now seg payload (ip_send resolve my_mac t.dst_ip 6 seg n).0
            (ip_send resolve my_mac t.dst_ip 6 seg n).1 t (omega arith) fits v)
  ]
    where
      small : ltb 1480 (tcp_len payload) ≡ false → tcp_len payload ≤ 1480
      small e = ground arith

  on_syn_sent-IsValid :
      (now : ℕ) (buf : ℕ → ℕ) (n : Net) (t : Tcp)
      → t.state ≡ syn_sent
      → IsValid t
      → IsValid (on_syn_sent resolve my_mac now buf (n, t)).1
  unfolding on_syn_sent
  on_syn_sent-IsValid now buf n t s (a, b, c, d, e) =
      host-IsValid _ _ _
        (λ z.
          tcp_tx-IsValid now tcp_ack [] n
            (record t { ack = u32 (be32_at buf 38 + 1); state = established }) (omega arith)
            (a, b, omega arith, (λ f. absurd (let x = d f in cc (s, x))), e))
        λ z. (a, b, c, d, e)

  on_data-IsValid :
      (now : ℕ) (buf : ℕ → ℕ) (n : Net) (t : Tcp)
      → IsValid t
      → IsValid (on_data resolve my_mac now buf (n, t)).1
  unfolding on_data store
  on_data-IsValid now buf n t (a, b, c, d, e) =
      host-IsValid _ _ _ (λ z. (a, b, c, d, e))
        λ z.
          tcp_tx-IsValid now tcp_ack [] n
            (record (store (bytes_at buf (34 + hdr_bytes buf) (data_len buf)) t) {
              ack = u32 (be32_at buf 38 + data_len buf);
            })
            (omega arith)
            (room (bytes_at buf (34 + hdr_bytes buf) (data_len buf)), b, omega arith, d, e)
    where
      room :
          (xs : List ℕ) → length (t.rx_buf ++ take (tcp_rx_size - length t.rx_buf) xs) ≤ tcp_rx_size
      room xs =
          let k = tcp_rx_size - length t.rx_buf in
          omega (arith, length-append t.rx_buf (take k xs), length-take k xs)

  on_end-IsValid :
      (now : ℕ) (buf : ℕ → ℕ) (n : Net) (t : Tcp)
      → IsValid t
      → IsValid (on_end resolve my_mac now buf (n, t)).1
  unfolding on_end on_fin
  on_end-IsValid now buf n t (a, b, c, d, e) =
      let t1 = record t { ack = u32 (be32_at buf 38 + data_len buf + 1) } in
      let (a', b', c', d', e') =
        tcp_tx-IsValid now (tcp_ack + tcp_fin) [] n t1 (omega arith) (a, b, omega arith, d, e) in
      host-IsValid _ _ _ (λ z. (a', omega arith, c', (λ f. refl), e')) λ z. (a, b, c, d, e)

  take_ack-IsValid : (buf : ℕ → ℕ) (t : Tcp) → IsValid t → IsValid (take_ack buf t)
  unfolding take_ack
  take_ack-IsValid buf t (a, b, c, d, e) =
      if-IsValid _ _ _ (λ z. (a, b, c, d, λ w. absurd (cc w))) λ z. (a, b, c, d, e)

  -- A received frame, whatever it holds, keeps the variables valid.
  pub tcp_recv_frame-IsValid :
      (now : ℕ) (buf : ℕ → ℕ) (len : ℕ) (n : Net) (t : Tcp)
      → IsValid t
      → IsValid (tcp_recv_frame resolve my_mac now buf len (n, t)).1
  unfolding tcp_recv_frame on_segment
  tcp_recv_frame-IsValid now buf len n t (a, b, c, d, e) =
      let v : IsValid t = (a, b, c, d, e) in
      let inner = on_segment resolve my_mac t.state now buf (n, t) in
      let alive = if has (buf 47) tcp_rst then shut (n, t) else inner in
      let heard = if not (is_from_peer buf len t) then (n, t) else alive in
      host-IsValid (is_closed t.state) (n, t) heard (λ z. v)
        λ z.
          host-IsValid (not (is_from_peer buf len t)) (n, t) alive (λ y. v)
            λ y.
              host-IsValid (has (buf 47) tcp_rst) (shut (n, t)) inner
                (λ x. (a, b, c, (λ f. refl), e)) λ x. by_state t.state refl v
    where
      by_state :
          (s : State)
          → t.state ≡ s
          → IsValid t
          → IsValid (on_segment resolve my_mac s now buf (n, t)).1
      by_state closed q v = v
      by_state syn_sent q v = on_syn_sent-IsValid now buf n t q v
      by_state established q v =
          let h = on_data resolve my_mac now buf (n, take_ack buf t) in
          on_end-IsValid now buf h.0 h.1
            (on_data-IsValid now buf n (take_ack buf t) (take_ack-IsValid buf t v))

  -- The segment that goes out again has the length of the one that was kept.
  pub length-refresh :
      (src : Ip) (t : Tcp) → 20 ≤ length t.retx.seg → length (refresh src t) ≡ length t.retx.seg
  unfolding refresh
  length-refresh src t h =
      let seg0 = t.retx.seg in
      let one = patch 8 (be32 t.ack []) seg0 in
      let two = patch 16 (be16 0 []) one in
      let e1 : length one ≡ length seg0 = length-patch 8 (be32 t.ack []) seg0 (omega arith) in
      let e2 : length two ≡ length one = length-patch 16 (be16 0 []) one (omega arith) in
      length-patch 16 (be16 (tcp_cksum src t.dst_ip two) []) two (omega arith) ∙ (e2 ∙ e1)

  resend-IsValid :
      (now : ℕ) (n : Net) (t : Tcp)
      → t.retx.active ≡ true
      → t.retx.retries + 1 ≤ tcp_max_retx
      → IsValid t
      → IsValid (resend resolve my_mac now (n, t)).1
  unfolding resend
  resend-IsValid now n t on h v =
      let seg = refresh n.net_ip t in
      let (a, b, c, d, e) = log-IsValid (ip_send resolve my_mac t.dst_ip 6 seg n).0 t v in
      let (p, lo, hi, q) = v.4 on in
      let same : length seg ≡ length t.retx.seg = length-refresh n.net_ip t lo in
      (a, b, c, d, λ w. (h, omega arith, omega arith, q))

  pub retx_check-IsValid :
      (now : ℕ) (n : Net) (t : Tcp) → IsValid t → IsValid (retx_check resolve my_mac now (n, t)).1
  unfolding retx_check
  retx_check-IsValid now n t (a, b, c, d, e) =
      let again = resend resolve my_mac now (n, t) in
      let v : IsValid t = (a, b, c, d, e) in
      let off = record t { retx = record t.retx { active = false } } in
      let lost = record t {
        state = closed;
        retx = record t.retx { active = false; retries = t.retx.retries + 1 };
      } in
      let last = if ltb tcp_max_retx (t.retx.retries + 1) then (n, lost) else again in
      let due = if ltb (elapsed now t.retx.sent_tick) tcp_rto_ticks then (n, t) else last in
      let live = if not (is_established t.state) then (n, off) else due in
      host-IsValid (not t.retx.active) (n, t) live (λ z. v)
        λ z.
          host-IsValid (not (is_established t.state)) (n, off) due
            (λ y. (a, b, c, d, λ w. absurd (cc w)))
            λ y.
              host-IsValid (ltb (elapsed now t.retx.sent_tick) tcp_rto_ticks) (n, t) last (λ x. v)
                λ x.
                  host-IsValid (ltb tcp_max_retx (t.retx.retries + 1)) (n, lost) again
                    (λ w. (a, b, c, (λ f. refl), λ u. absurd (cc u)))
                    λ w. resend-IsValid now n t (on t.retx.active z) (few w) v
    where
      on : (r : Bool) → not r ≡ false → r ≡ true
      on true h = refl
      on false h = cc h

      few : ltb tcp_max_retx (t.retx.retries + 1) ≡ false → t.retx.retries + 1 ≤ tcp_max_retx
      few w = ground arith

  -- The frames that `net_recv` hands over are those of `tcp_recv_frame`.
  take_frame-IsValid :
      (now : ℕ) (buf : ℕ → ℕ) (rlen : Option ℕ) (n : Net) (t : Tcp)
      → IsValid t
      → IsValid (take_frame resolve my_mac now buf rlen (n, t)).1
  unfolding take_frame net_recv
  take_frame-IsValid now buf none n t v = v
  take_frame-IsValid now buf (some len) n t v =
      let r = net_recv (tcp_recv_frame resolve my_mac now) my_mac now buf len (n, t) in
      log-IsValid r.1 r.0.1 (
        net_recv_cases IsValid (tcp_recv_frame resolve my_mac now) my_mac now buf len n t v
          (tcp_recv_frame-IsValid now buf len n t v))

  pub pump-IsValid : (turn : Turn) (h : Host) → IsValid h.1 → IsValid (pump resolve my_mac turn h).1
  unfolding pump
  pump-IsValid turn (n, t) v =
      let h = take_frame resolve my_mac turn.tick turn.buf turn.rlen (n, t) in
      retx_check-IsValid turn.tick h.0 h.1 (take_frame-IsValid turn.tick turn.buf turn.rlen n t v)
