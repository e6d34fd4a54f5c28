-- ===== src/Dns.antt =====
-- The resolver of src/drivers/dns.c for addresses: `dns_resolve_all` and `dns_resolve`. A host name
-- is the characters before the 0, and a response of `rlen` bytes a function.
pub mod Names
pub mod Reverse
mod Tests
use iron_kernel.Prelude.{
  ℕ, zero, suc, ◌+◌, ◌-◌, ◌*◌, ◌/◌, ◌%◌, ◌^◌, Bool, true, false, ◌&&◌, not, Option, none, some,
  List, [], ◌∷◌, ◌++◌, ltb, leb, ◌==◌, if◌then◌else◌, get_or, length, take, u8, u16,
}
use iron_kernel.Arp.{Ip, Mac}
use iron_kernel.Internet.{Net, Turn, be16_at, udp_open, udp_close, udp_recv, udp_send}
use iron_kernel.Internet.Ping.{since, hear}

abbrev pub dns_txid : ℕ
dns_txid = 0x494B

abbrev pub dns_timeout : ℕ
dns_timeout = 300

abbrev pub dns_max_addrs : ℕ
dns_max_addrs = 8

-- `while (*dot && *dot != '.') dot++;`: the label, and what stands behind it and its dot.
unfoldable pub label : List ℕ → List ℕ
label [] = []
label (c ∷ host) = let rest = label host in if c == b'.' then [] else c ∷ rest

unfoldable pub behind : List ℕ → List ℕ
behind [] = []
behind (c ∷ host) = let rest = behind host in if c == b'.' then host else rest

-- The length of a label is a `uint8_t`. A round for each character and one more are enough.
unfoldable pub encode : (fuel : ℕ) → (host : List ℕ) → List ℕ
encode zero host = 0 ∷ []
encode (suc fuel) [] = 0 ∷ []
encode (suc fuel) (c ∷ host) =
    let l = label (c ∷ host) in
    u8 (length l) ∷ (take (u8 (length l)) l ++ encode fuel (behind (c ∷ host)))

unfoldable pub dns_encode_name : (host : List ℕ) → List ℕ
dns_encode_name host = encode (length host) host

-- Each round moves on by a byte at least, so `len` rounds are enough.
unfoldable pub skip : (fuel : ℕ) → (buf : ℕ → ℕ) → (off len : ℕ) → ℕ
skip zero buf off len = off
skip (suc fuel) buf off len =
    let rest = skip fuel buf (u16 (off + 1 + buf off)) len in
    if not (ltb off len)
    then off
    else if buf off == 0
    then u16 (off + 1)
    else if buf off / 64 == 3
    then u16 (off + 2)
    else rest

unfoldable pub dns_skip_name : (buf : ℕ → ℕ) → (off len : ℕ) → ℕ
dns_skip_name buf off len = skip len buf off len

-- The question for an address. A name that is too long for the 512 bytes of `pkt` is not modelled.
unfoldable pub dns_query : (hostname : List ℕ) → List ℕ
dns_query hostname =
    dns_txid / 256
    ∷ dns_txid % 256
    ∷ 1
    ∷ 0
    ∷ 0
    ∷ 1
    ∷ 0
    ∷ 0
    ∷ 0
    ∷ 0
    ∷ 0
    ∷ 0
    ∷ (dns_encode_name hostname ++ (0 ∷ 1 ∷ 0 ∷ 1 ∷ []))

-- The loop over the questions, with `n` of them left.
unfoldable pub skip_questions : (n : ℕ) → (resp : ℕ → ℕ) → (rlen off : ℕ) → ℕ
skip_questions zero resp rlen off = off
skip_questions (suc n) resp rlen off =
    let rest = skip_questions n resp rlen (u16 (dns_skip_name resp off rlen + 4)) in
    if ltb off rlen then rest else off

abbrev pub ip_here : (ℕ → ℕ) → ℕ → Ip
ip_here resp off = record {
  ip0 = resp off;
  ip1 = resp (off + 1);
  ip2 = resp (off + 2);
  ip3 = resp (off + 3);
}

-- The loop over the answers, with `n` of them and `room` places left: the addresses.
unfoldable pub collect : (n room : ℕ) → (resp : ℕ → ℕ) → (rlen off : ℕ) → List Ip
collect zero room resp rlen off = []
collect (suc n) room resp rlen off =
    let at = dns_skip_name resp off rlen in
    let rdlen = be16_at resp (at + 8) in
    let next = u16 (at + 10 + rdlen) in
    let found = be16_at resp at == 1 && rdlen == 4 && leb (u16 (at + 10) + 4) rlen && ltb 0 room in
    let with = collect n (room - 1) resp rlen next in
    let without = collect n room resp rlen next in
    if not (ltb off rlen)
    then []
    else if ltb rlen (at + 10)
    then []
    else if found
    then ip_here resp (u16 (at + 10)) ∷ with
    else without

-- The checks of a response, and its addresses, at most `max`.
unfoldable pub addresses : (max : ℕ) → (resp : ℕ → ℕ) → (rlen : ℕ) → List Ip
addresses max resp rlen =
    let ancount = be16_at resp 6 in
    let all = collect ancount max resp rlen (skip_questions (be16_at resp 4) resp rlen 12) in
    if ltb rlen 12
    then []
    else if not (be16_at resp 0 == dns_txid)
    then []
    else if not (resp 2 / 128 % 2 == 1)
    then []
    else if not (resp 3 % 16 == 0)
    then []
    else if ancount == 0
    then []
    else all

module _ {T : Type 0} (tcp_recv_frame : ℕ → (ℕ → ℕ) → ℕ → Net × T → Net × T) (my_mac : Mac) where
  -- The waiting loop over the turns that it may take; its callers give it 30000000 at most.
  unfoldable pub dns_wait : (t0 : ℕ) → List Turn → Net × T → List ℕ × (Net × T)
  dns_wait t0 [] h = ([], h)
  dns_wait t0 (turn ∷ turns) h =
      let h1 = hear tcp_recv_frame my_mac turn.rlen turn h in
      let (resp, n) = udp_recv 512 h1.0 in
      let rest = dns_wait t0 turns (n, h1.1) in
      if ltb 0 (length resp)
      then (resp, (n, h1.1))
      else if leb dns_timeout (since turn.tick t0)
      then (resp, (n, h1.1))
      else rest

  unfoldable pub dns_resolve_all :
      (resolve : Ip → Option Mac)
      → (dns_server : Ip) → (hostname : List ℕ) → (max now : ℕ) → List Turn
      → Net × T
      → List Ip × (Net × T)
  dns_resolve_all resolve dns_server hostname max now turns (n, t) =
      let (frame, n1) =
        udp_send resolve my_mac dns_server 5353 53 (dns_query hostname) (udp_open 5353 n) in
      let (resp, h) = dns_wait now (take 30000000 turns) (n1, t) in
      elim frame [
        | none ↦ ([], (udp_close n1, t))
        | some bytes ↦ (addresses max (λ i. get_or resp i 0) (length resp), (udp_close h.0, h.1))
      ]

  -- `none` is the return value -1.
  unfoldable pub dns_resolve :
      (resolve : Ip → Option Mac)
      → (dns_server : Ip) → (hostname : List ℕ) → (now : ℕ) → List Turn
      → Net × T
      → Option Ip × (Net × T)
  dns_resolve resolve dns_server hostname now turns h =
      let (list, h1) = dns_resolve_all resolve dns_server hostname dns_max_addrs now turns h in
      elim list [ [] ↦ (none, h1) | ip ∷ rest ↦ (some ip, h1) ]
