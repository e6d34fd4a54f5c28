-- ===== src/Tcp/Handshake.antt =====
-- How a connection of src/drivers/tcp.c becomes established.
use iron_kernel.Prelude.{
  ℕ, suc, ◌+◌, ◌≡◌, ◌≢◌, refl, sym, subst, inl, inr, Bool, true, false, ◌&&◌, not, Option, none,
  some, List, [], ◌∷◌, arith, ltb, Bool-cases, if_true, if_false, and_true, if_split, if◌then◌else◌,
  length, u32,
}
use iron_kernel.Arp.{Ip, Mac}
use iron_kernel.Internet.{Net, ip_send}
use iron_kernel.Tcp.{
  State, closed, syn_sent, established, Tcp, Host, tcp_ack, tcp_syn, tcp_rst, has, be32_at, tcp_len,
  tx_segment, log, arm, is_from_peer,
}
use iron_kernel.Tcp.Machine.{
  is_closed, shut, tx_done, tcp_tx, on_syn_sent, on_segment, tcp_recv_frame,
}

-- What sending leaves as it is: all but `retx` and `sent`.
abbrev pub Kept : Tcp → Tcp → Type 0
Kept t t' =
    (t'.rx_buf ≡ t.rx_buf)
    × (t'.seq ≡ t.seq)
    × (t'.ack ≡ t.ack)
    × (t'.rx_fin ≡ t.rx_fin)
    × (t'.state ≡ t.state)
    × (t'.dst_ip ≡ t.dst_ip)
    × (t'.dst_port ≡ t.dst_port)
    × (t'.src_port ≡ t.src_port)

arm-Kept : (now : ℕ) (seg payload : List ℕ) (t : Tcp) → Kept t (arm now seg payload t)
unfolding arm
arm-Kept now seg [] t = (refl, refl, refl, refl, refl, refl, refl, refl)
arm-Kept now seg (x ∷ payload) t =
    subst (Kept t) (sym (if_true _ _ _ (positive payload)))
      (refl, refl, refl, refl, refl, refl, refl, refl)
  where
    positive : (xs : List ℕ) → ltb 0 (suc (length xs)) ≡ true
    positive xs = ground arith

tx_done-Kept :
    (now : ℕ) (seg payload : List ℕ) (frame : Option (List ℕ)) (n : Net) (t : Tcp)
    → Kept t (tx_done now seg payload (frame, n) t).1.1
unfolding tx_done
tx_done-Kept now seg payload none n t = (refl, refl, refl, refl, refl, refl, refl, refl)
tx_done-Kept now seg payload (some frame) n t = arm-Kept now seg payload (log (some frame) t)

module _ (resolve : Ip → Option Mac) (my_mac : Mac) where
  pub tcp_tx-Kept :
      (now flags : ℕ) (payload : List ℕ) (n : Net) (t : Tcp)
      → Kept t (tcp_tx resolve my_mac now flags payload (n, t)).1.1
  unfolding tcp_tx
  tcp_tx-Kept now flags payload n t = elim (Bool-cases (ltb 1480 (tcp_len payload))) [
    | inl e ↦
        subst (λ (r : Bool × Host). Kept t r.1.1) (sym (if_true _ _ _ e))
          (refl, refl, refl, refl, refl, refl, refl, refl)
    | inr e ↦
        let s = ip_send resolve my_mac t.dst_ip 6 (tx_segment n t flags payload) n in
        subst (λ (r : Bool × Host). Kept t r.1.1) (sym (if_false _ _ _ e))
          (tx_done-Kept now (tx_segment n t flags payload) payload s.0 s.1 t)
  ]

  -- A frame makes a connection established only when a SYN was sent and the frame comes from the
  -- address and the port that the SYN went to, is for our port, has the flags SYN and ACK and not
  -- RST; then the next number that we expect is the one behind the number in the frame.
  pub established_by_peer :
      (now : ℕ) (buf : ℕ → ℕ) (len : ℕ) (n : Net) (t : Tcp)
      → t.state ≢ established
      → (tcp_recv_frame resolve my_mac now buf len (n, t)).1.state ≡ established
      → (t.state ≡ syn_sent)
        × (is_from_peer buf len t ≡ true)
        × (has (buf 47) tcp_rst ≡ false)
        × (has (buf 47) tcp_syn ≡ true)
        × (has (buf 47) tcp_ack ≡ true)
        × ((tcp_recv_frame resolve my_mac now buf len (n, t)).1.ack ≡ u32 (be32_at buf 38 + 1))
  unfolding tcp_recv_frame
  established_by_peer now buf len n t new =
      let inner = on_segment resolve my_mac t.state now buf (n, t) in
      let alive = if has (buf 47) tcp_rst then shut (n, t) else inner in
      let heard = if not (is_from_peer buf len t) then (n, t) else alive in
      if_split Q (is_closed t.state) (n, t) heard (λ z. λ h. absurd (new h))
        λ z.
          if_split Q (not (is_from_peer buf len t)) (n, t) alive (λ y. λ h. absurd (new h))
            λ y.
              if_split Q (has (buf 47) tcp_rst) (shut (n, t)) inner (λ x. λ h. absurd (cc h))
                λ x. by_state t.state refl (is_on _ y) x
    where
      Q : Host → Type 0
      Q r =
          r.1.state ≡ established
          → (t.state ≡ syn_sent)
            × (is_from_peer buf len t ≡ true)
            × (has (buf 47) tcp_rst ≡ false)
            × (has (buf 47) tcp_syn ≡ true)
            × (has (buf 47) tcp_ack ≡ true)
            × (r.1.ack ≡ u32 (be32_at buf 38 + 1))

      is_on : (b : Bool) → not b ≡ false → b ≡ true
      is_on true h = refl
      is_on false h = cc h

      by_state :
          (s : State)
          → t.state ≡ s
          → is_from_peer buf len t ≡ true
          → has (buf 47) tcp_rst ≡ false
          → Q (on_segment resolve my_mac s now buf (n, t))
      by_state closed q from alive = unfold on_segment in λ h. absurd (new h)
      by_state established q from alive = absurd (new q)
      by_state syn_sent q from alive =
          unfold on_segment on_syn_sent in
          let t1 = record t { ack = u32 (be32_at buf 38 + 1); state = established } in
          if_split Q (has (buf 47) tcp_syn && has (buf 47) tcp_ack)
            (tcp_tx resolve my_mac now tcp_ack [] (n, t1)).1 (n, t)
            (λ w. λ h.
              let (s, a) = and_true _ _ w in
              (q, from, alive, s, a, (tcp_tx-Kept now tcp_ack [] n t1).2))
            λ w. λ h. absurd (new h)
