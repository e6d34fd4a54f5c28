-- ===== src/Tcp/Retransmit.antt =====
-- The retransmission of src/drivers/tcp.c: it stops, and what ends it.
use iron_kernel.Prelude.{ℕ, ◌≤◌, ◌≡◌, true, false, Option, List, [], ◌∷◌, ◌++◌, length}
use iron_kernel.Arp.{Ip, Mac}
use iron_kernel.Tcp.{closed, established, Tcp, Host, tcp_rto_ticks}
use iron_kernel.Tcp.Machine.{elapsed, retx_check}

-- The ticks of checks, each a second or more after the one before it.
abbrev pub AreDue : ℕ → List ℕ → Type 0
AreDue since [] = Unit
AreDue since (now ∷ ticks) = (tcp_rto_ticks ≤ elapsed now since) × AreDue now ticks

module _ (resolve : Ip → Option Mac) (my_mac : Mac) where
  unfoldable pub checks : List ℕ → Host → Host
  checks [] h = h
  checks (now ∷ ticks) h = checks ticks (retx_check resolve my_mac now h)

  -- What holds before and after the check at `last`, where `k` frames were sent before it.
  abbrev Outcome : (k : ℕ) → (early : List ℕ) → (last : ℕ) → Host → Type 0
  Outcome k early last h =
      let before = (checks early h).1 in
      let after = (checks (early ++ (last ∷ [])) h).1 in
      (before.state ≡ established)
      × (before.retx.active ≡ true)
      × (length before.sent ≡ k)
      × (after.state ≡ closed)
      × (after.retx.active ≡ false)
      × (after.sent ≡ before.sent)
