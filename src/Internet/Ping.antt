-- ===== src/Internet/Ping.antt =====
-- `icmp_ping` of src/drivers/ip.c.
use iron_kernel.Prelude.{
  ℕ, ◌+◌, ◌-◌, ◌*◌, ◌^◌, Option, none, some, List, [], ◌∷◌, leb, take, if◌then◌else◌, u32,
}
use iron_kernel.Arp.{Ip, Mac}
use iron_kernel.Internet.{Net, Turn, arp_target, ip_send_raw, echo_request, ping_start, net_recv}

-- `a - b` of two `uint32_t`
abbrev pub since : (a b : ℕ) → ℕ
since a b = u32 (a + 2 ^ 32 - b)

module _ {T : Type 0} (tcp_recv_frame : ℕ → (ℕ → ℕ) → ℕ → Net × T → Net × T) (my_mac : Mac) where
  unfoldable pub hear : Option ℕ → Turn → Net × T → Net × T
  hear none turn h = h
  hear (some len) turn h = (net_recv (tcp_recv_frame turn.tick) my_mac turn.tick turn.buf len h).0

  -- The waiting loop over the turns that it may take; `ping_to` gives it 24000000 at most. The answer is the time in
  -- milliseconds, and the frames that arp.c sends in it are not kept.
  unfoldable pub ping_wait : (t0 : ℕ) → List Turn → Net × T → Option ℕ × (Net × T)
  ping_wait t0 [] h = (none, h)
  ping_wait t0 (turn ∷ turns) h =
      let h1 = hear turn.rlen turn h in
      let rest = ping_wait t0 turns h1 in
      if h1.0.ping_got
      then (some (u32 (since h1.0.ping_ticks t0 * 10)), h1)
      else if leb 300 (since turn.tick t0)
      then (none, h1)
      else rest

  unfoldable pub ping_to :
      Option Mac → (dst_ip : Ip) → (seq now : ℕ) → List Turn → Net × T → Option ℕ × (Net × T)
  ping_to none dst_ip seq now turns h = (none, h)
  ping_to (some mac) dst_ip seq now turns (n, t) =
      let (frame, n1) = ip_send_raw my_mac mac dst_ip 1 (echo_request seq) (ping_start seq n) in
      let waited = ping_wait now (take 24000000 turns) (n1, t) in
      elim frame [ none ↦ (none, (n1, t)) | some bytes ↦ waited ]

  unfoldable pub icmp_ping :
      (resolve : Ip → Option Mac)
      → (dst_ip : Ip) → (seq now : ℕ) → List Turn
      → Net × T
      → Option ℕ × (Net × T)
  icmp_ping resolve dst_ip seq now turns (n, t) =
      ping_to (resolve (arp_target dst_ip n)) dst_ip seq now turns (n, t)
