-- ===== src/Tcp/Stream.antt =====
-- The received bytes of src/drivers/tcp.c: what a sequence of segments leaves in the buffer.
use iron_kernel.Prelude.{
  ℕ, zero, suc, ◌+◌, ◌-◌, ◌≤◌, ◌≡◌, ◌∙◌, refl, sym, ap, subst, true, false, ◌&&◌, not, Option, List,
  [], ◌∷◌, ◌++◌, append-nil, append_assoc, arith, leb, ◌==◌, ==_iff, if_false, if_split, length,
  length-take, take, take_all, u32, All,
}
use iron_kernel.Arp.{Ip, Mac}
use iron_kernel.Internet.{Net, bytes_at}
use iron_kernel.Tcp.{
  established, Tcp, Host, tcp_rx_size, tcp_ack, tcp_fin, tcp_rst, has, be32_at, store, is_from_peer,
  hdr_bytes, data_len, take_ack,
}
use iron_kernel.Tcp.Machine.{is_closed, tcp_tx, on_data, on_end, on_segment, tcp_recv_frame}
use iron_kernel.Tcp.Handshake.{tcp_tx-Kept}

-- the data of a segment, by the lengths that its headers state
abbrev pub data_of : (ℕ → ℕ) → List ℕ
data_of buf = bytes_at buf (34 + hdr_bytes buf) (data_len buf)

-- Filling up to `n` is taking `n` of both.
take-append :
    (n : ℕ) (xs ys : List ℕ) → length xs ≤ n → xs ++ take (n - length xs) ys ≡ take n (xs ++ ys)
take-append n [] ys h = let e : n - 0 ≡ n = omega arith in ap (λ k. take k ys) e
take-append zero (x ∷ xs) ys h = absurd (omega arith)
take-append (suc n) (x ∷ xs) ys h =
    let e : suc n - suc (length xs) ≡ n - length xs = omega arith in
    ap (λ k. x ∷ (xs ++ take k ys)) e ∙ ap (λ l. x ∷ l) (take-append n xs ys (omega arith))

-- Taking twice as much is taking once.
take-take-append : (n : ℕ) (xs ys : List ℕ) → take n (take n xs ++ ys) ≡ take n (xs ++ ys)
take-take-append zero xs ys = refl
take-take-append (suc n) [] ys = refl
take-take-append (suc n) (x ∷ xs) ys = ap (λ l. x ∷ l) (take-take-append n xs ys)

-- A segment of the peer that neither resets nor ends the connection.
abbrev pub IsData : Tcp → (ℕ → ℕ) × ℕ → Type 0
IsData t (buf, len) =
    (is_from_peer buf len t ≡ true)
    × (has (buf 47) tcp_rst ≡ false)
    × (has (buf 47) tcp_fin ≡ false)

-- What such a segment leaves of the rest of the state.
abbrev IsSame : Tcp → Tcp → Type 0
IsSame t t' =
    (t'.state ≡ t.state)
    × (t'.dst_ip ≡ t.dst_ip)
    × (t'.dst_port ≡ t.dst_port)
    × (t'.src_port ≡ t.src_port)

abbrev Stored : Tcp → List ℕ → Tcp → Type 0
Stored t xs t' = IsSame t t' × (t'.rx_buf ≡ take tcp_rx_size (t.rx_buf ++ xs))

-- the data of the segments, in their order
abbrev pub concat : List ((ℕ → ℕ) × ℕ) → List ℕ
concat [] = []
concat (f ∷ frames) = data_of f.0 ++ concat frames

-- Whether a segment is of the peer depends on the address and the ports only.
IsData-same : (t t' : Tcp) (f : (ℕ → ℕ) × ℕ) → IsSame t t' → IsData t f → IsData t' f
IsData-same t t' (buf, len) (a, b, c, d) (from, alive, more) = (rw (b, c, d) from, alive, more)

others :
    (t t' : Tcp)
    → IsSame t t'
    → (frames : List ((ℕ → ℕ) × ℕ)) → All (IsData t) frames
    → All (IsData t') frames
others t t' same [] all = all
others t t' same (f ∷ frames) (one, all) =
    (IsData-same t t' f same one, others t t' same frames all)

take_ack-IsSame :
    (buf : ℕ → ℕ) (t : Tcp) → IsSame t (take_ack buf t) × ((take_ack buf t).rx_buf ≡ t.rx_buf)
unfolding take_ack
take_ack-IsSame buf t =
    if_split (λ (t' : Tcp). IsSame t t' × (t'.rx_buf ≡ t.rx_buf))
      (has (buf 47) tcp_ack && t.retx.active && leb t.retx.seq_end (be32_at buf 42))
      (record t { retx = record t.retx { active = false } }) t
      (λ z. ((refl, refl, refl, refl), refl)) λ z. ((refl, refl, refl, refl), refl)

module _ (resolve : Ip → Option Mac) (my_mac : Mac) where
  on_data_lem :
      (now : ℕ) (buf : ℕ → ℕ) (n : Net) (t : Tcp)
      → length t.rx_buf ≤ tcp_rx_size
      → Stored t (data_of buf) (on_data resolve my_mac now buf (n, t)).1
  unfolding on_data store
  on_data_lem now buf n t h =
      let k = data_len buf in
      let t1 = record (store (data_of buf) t) { ack = u32 (be32_at buf 38 + k) } in
      let kept = tcp_tx-Kept resolve my_mac now tcp_ack [] n t1 in
      if_split (λ (r : Host). Stored t (data_of buf) r.1) (k == 0) (n, t)
        (tcp_tx resolve my_mac now tcp_ack [] (n, t1)).1
        (λ z. ((refl, refl, refl, refl), sym (nothing ((==_iff k 0).0 z))))
        λ z. (
          (kept.4, kept.5, kept.6, kept.7),
          kept.0 ∙ take-append tcp_rx_size t.rx_buf (data_of buf) h,
        )
    where
      nothing : data_len buf ≡ 0 → take tcp_rx_size (t.rx_buf ++ data_of buf) ≡ t.rx_buf
      nothing e =
          ap (λ (k : ℕ). take tcp_rx_size (t.rx_buf ++ bytes_at buf (34 + hdr_bytes buf) k)) e
          ∙ (ap (take tcp_rx_size) (append-nil t.rx_buf) ∙ take_all tcp_rx_size t.rx_buf h)

  on_end_lem :
      (now : ℕ) (buf : ℕ → ℕ) (h : Host)
      → has (buf 47) tcp_fin ≡ false
      → on_end resolve my_mac now buf h ≡ h
  unfolding on_end
  on_end_lem now buf (n, t) z = if_false _ _ _ z

  -- The whole handler on a segment with data.
  tcp_recv_frame_data :
      (now : ℕ) (f : (ℕ → ℕ) × ℕ) (n : Net) (t : Tcp)
      → t.state ≡ established
      → IsData t f
      → length t.rx_buf ≤ tcp_rx_size
      → Stored t (data_of f.0) (tcp_recv_frame resolve my_mac now f.0 f.1 (n, t)).1
  unfolding tcp_recv_frame on_segment
  tcp_recv_frame_data now (buf, len) n t up (from, alive, more) h =
      let (same, rx) = take_ack-IsSame buf t in
      let ((a, b, c, d), stored) =
        on_data_lem now buf n (take_ack buf t)
          (subst (λ (l : List ℕ). length l ≤ tcp_rx_size) (sym rx) h) in
      let whole : tcp_recv_frame resolve my_mac now buf len (n, t)
          ≡ on_data resolve my_mac now buf (n, take_ack buf t) =
        if_false _ _ _ (ap is_closed up)
        ∙ (if_false _ _ _ (ap not from)
            ∙ (if_false _ _ _ alive
                ∙ (ap (λ s. on_segment resolve my_mac s now buf (n, t)) up
                    ∙ on_end_lem now buf (on_data resolve my_mac now buf (n, take_ack buf t))
                        more))) in
      subst (λ (r : Host). Stored t (data_of buf) r.1) (sym whole)
        (
          (a ∙ same.0, b ∙ same.1, c ∙ same.2, d ∙ same.3),
          stored ∙ ap (λ (l : List ℕ). take tcp_rx_size (l ++ data_of buf)) rx,
        )

  -- Segments that arrive one after the other.
  unfoldable pub recv_frames : (now : ℕ) → List ((ℕ → ℕ) × ℕ) → Host → Host
  recv_frames now [] h = h
  recv_frames now (f ∷ frames) h =
      recv_frames now frames (tcp_recv_frame resolve my_mac now f.0 f.1 h)

  -- On an established connection the buffer is a prefix of a stream: after any segments of the peer without
  -- RST and FIN it holds the first TCP_RX_SIZE bytes of what it held before followed by the data of
  -- the segments, in the order of their arrival, and the connection is still established.
  pub recv_frames_lem :
      (now : ℕ) (frames : List ((ℕ → ℕ) × ℕ)) (n : Net) (t : Tcp)
      → t.state ≡ established
      → length t.rx_buf ≤ tcp_rx_size
      → All (IsData t) frames
      → ((recv_frames now frames (n, t)).1.state ≡ established)
        × ((recv_frames now frames (n, t)).1.rx_buf ≡ take tcp_rx_size (t.rx_buf ++ concat frames))
  unfolding recv_frames
  recv_frames_lem now [] n t up h all =
      (up, sym (ap (take tcp_rx_size) (append-nil t.rx_buf) ∙ take_all tcp_rx_size t.rx_buf h))
  recv_frames_lem now (f ∷ frames) n t up h (one, all) =
      let h1 = tcp_recv_frame resolve my_mac now f.0 f.1 (n, t) in
      let (same, rx) = tcp_recv_frame_data now f n t up one h in
      let (up', rx') =
        recv_frames_lem now frames h1.0 h1.1 (same.0 ∙ up)
          (subst (λ (l : List ℕ). length l ≤ tcp_rx_size) (sym rx)
            (omega (arith, length-take tcp_rx_size (t.rx_buf ++ data_of f.0))))
          (others t h1.1 same frames all) in
      (
        up',
        rx'
            ∙ (ap (λ (l : List ℕ). take tcp_rx_size (l ++ concat frames)) rx
                ∙ (take-take-append tcp_rx_size (t.rx_buf ++ data_of f.0) (concat frames)
                    ∙ ap (take tcp_rx_size) (append_assoc t.rx_buf (data_of f.0) (concat frames)))),
      )
