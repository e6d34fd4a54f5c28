-- ===== src/Dns/Reverse.antt =====
-- The reverse lookup of src/drivers/dns.c: `dns_expand_name` and `dns_reverse`.
use iron_kernel.Prelude.{
  ℕ, zero, suc, ◌+◌, ◌-◌, ◌*◌, ◌/◌, ◌%◌, ◌≤◌, ◌<◌, ◌≡◌, refl, ap, ◌∙◌, inl, inr, arith, Bool, true,
  false, ◌&&◌, not, Option, none, some, List, [], ◌∷◌, ◌++◌, ltb, leb, ◌==◌, if_true, if_false,
  if◌then◌else◌, if_split, ltb→lt, Bool-cases, get_or, length, take, length-append, u16,
}
use iron_kernel.Arp.{Ip, Mac}
use iron_kernel.Internet.{Net, Turn, be16_at, udp_open, udp_close, udp_send}
use iron_kernel.Dns.{dns_txid, dns_encode_name, dns_skip_name, skip_questions, dns_wait}

-- The place that the text has: `(uint16_t)(outmax - 1)`.
abbrev pub space : ℕ → ℕ
space outmax = u16 (outmax + 65535)

abbrev pub append_if_space : (outmax c : ℕ) → List ℕ → List ℕ
append_if_space outmax c out = if ltb (length out) (space outmax) then out ++ (c ∷ []) else out

-- The loop over the characters of a label, `n` of them left: the text and the offset behind. An offset
-- grows only below `len`, so a `uint16_t` does not wrap.
unfoldable pub copy_label : (n : ℕ) → (buf : ℕ → ℕ) → (off len outmax : ℕ) → List ℕ → List ℕ × ℕ
copy_label zero buf off len outmax out = (out, off)
copy_label (suc n) buf off len outmax out =
    let rest = copy_label n buf (off + 1) len outmax (append_if_space outmax (buf off) out) in
    if ltb off len then rest else (out, off)

abbrev pub with_dot : (outmax : ℕ) → List ℕ → List ℕ
with_dot outmax out = if ltb 0 (length out) then append_if_space outmax b'.' out else out

-- The loop on fuel, with the pointers followed so far; `none` stands for a loop that is cut off.
unfoldable pub expand :
    (fuel hops : ℕ) → (buf : ℕ → ℕ) → (off len outmax : ℕ) → List ℕ → Option (List ℕ)
expand zero hops buf off len outmax out = none
expand (suc fuel) hops buf off len outmax out =
    let b = buf off in
    let jump = expand fuel (hops + 1) buf (b % 64 * 256 + buf (off + 1)) len outmax out in
    let (text, behind) = copy_label b buf (off + 1) len outmax (with_dot outmax out) in
    let onward = expand fuel hops buf behind len outmax text in
    if not (ltb off len && ltb hops 16)
    then some out
    else if b == 0
    then some out
    else if b / 64 == 3
    then jump
    else onward

unfoldable pub dns_expand_name : (buf : ℕ → ℕ) → (off len outmax : ℕ) → Option (List ℕ)
dns_expand_name buf off len outmax = expand (17 * (len + 1)) 0 buf off len outmax []

-- The digits of an octet.
unfoldable pub octet : ℕ → List ℕ
octet v =
    (if leb 100 v then (b'0' + v / 100) ∷ [] else [])
    ++ ((if leb 10 v then (b'0' + v / 10 % 10) ∷ [] else []) ++ ((b'0' + v % 10) ∷ []))

abbrev pub arpa : List ℕ
arpa = b'i' ∷ b'n' ∷ b'-' ∷ b'a' ∷ b'd' ∷ b'd' ∷ b'r' ∷ b'.' ∷ b'a' ∷ b'r' ∷ b'p' ∷ b'a' ∷ []

unfoldable pub ptr_name : Ip → List ℕ
unfolding octet
ptr_name ip =
    octet ip.ip3
    ++ (b'.'
        ∷ (octet ip.ip2 ++ (b'.' ∷ (octet ip.ip1 ++ (b'.' ∷ (octet ip.ip0 ++ (b'.' ∷ arpa)))))))

unfoldable pub ptr_query : Ip → List ℕ
ptr_query ip =
    dns_txid / 256
    ∷ dns_txid % 256
    ∷ 1
    ∷ 0
    ∷ 0
    ∷ 1
    ∷ 0
    ∷ 0
    ∷ 0
    ∷ 0
    ∷ 0
    ∷ 0
    ∷ (dns_encode_name (ptr_name ip) ++ (0 ∷ 12 ∷ 0 ∷ 1 ∷ []))

-- The loop over the answers, `n` of them left: the offset of the first name.
unfoldable pub first_ptr : (n : ℕ) → (resp : ℕ → ℕ) → (rlen off : ℕ) → Option ℕ
first_ptr zero resp rlen off = none
first_ptr (suc n) resp rlen off =
    let at = dns_skip_name resp off rlen in
    let rest = first_ptr n resp rlen (u16 (at + 10 + be16_at resp (at + 8))) in
    if not (ltb off rlen)
    then none
    else if ltb rlen (at + 10)
    then none
    else if be16_at resp at == 12
    then some (u16 (at + 10))
    else rest

-- The checks of the response. `none` is the return value -1.
unfoldable pub answered_name : (resp : ℕ → ℕ) → (rlen maxlen : ℕ) → Option (List ℕ)
answered_name resp rlen maxlen =
    let ancount = be16_at resp 6 in
    let place = first_ptr ancount resp rlen (skip_questions (be16_at resp 4) resp rlen 12) in
    let name = elim place as (λ _. Option (List ℕ)) [
      | none ↦ none
      | some off ↦ dns_expand_name resp off rlen maxlen
    ] in
    if ltb rlen 12
    then none
    else if not (be16_at resp 0 == dns_txid)
    then none
    else if not (resp 2 / 128 % 2 == 1)
    then none
    else if not (resp 3 % 16 == 0)
    then none
    else if ancount == 0
    then none
    else name

module _ {T : Type 0} (tcp_recv_frame : ℕ → (ℕ → ℕ) → ℕ → Net × T → Net × T) (my_mac : Mac) where
  unfoldable pub dns_reverse :
      (resolve : Ip → Option Mac)
      → (dns_server ip : Ip) → (maxlen now : ℕ) → List Turn
      → Net × T
      → Option (List ℕ) × (Net × T)
  dns_reverse resolve dns_server ip maxlen now turns (n, t) =
      let (frame, n1) =
        udp_send resolve my_mac dns_server 5353 53 (ptr_query ip) (udp_open 5353 n) in
      let (resp, h) = dns_wait tcp_recv_frame my_mac now (take 30000000 turns) (n1, t) in
      elim frame [
        | none ↦ (none, (udp_close n1, t))
        | some bytes ↦
            (answered_name (λ i. get_or resp i 0) (length resp) maxlen, (udp_close h.0, h.1))
      ]

append_if_space-lt :
    (outmax c : ℕ) (out : List ℕ)
    → 0 < outmax
    → outmax < 65536
    → length out < outmax
    → length (append_if_space outmax c out) < outmax
append_if_space-lt outmax c out p q h = elim (Bool-cases (ltb (length out) (space outmax))) [
  | inl e ↦
      rw (if_true _ (out ++ (c ∷ [])) out e)
        (omega (arith, ltb→lt _ _ e, length-append out (c ∷ [])))
  | inr e ↦ rw (if_false _ (out ++ (c ∷ [])) out e) h
]

copy_label_bounds :
    (n : ℕ) (buf : ℕ → ℕ) (off len outmax : ℕ) (out : List ℕ)
    → 0 < outmax
    → outmax < 65536
    → length out < outmax
    → (length (copy_label n buf off len outmax out).0 < outmax)
      × (off ≤ (copy_label n buf off len outmax out).1)
unfolding copy_label
copy_label_bounds zero buf off len outmax out p q h = (h, omega arith)
copy_label_bounds (suc n) buf off len outmax out p q h =
    let more = append_if_space outmax (buf off) out in
    let ih =
      copy_label_bounds n buf (off + 1) len outmax more p q
        (append_if_space-lt outmax (buf off) out p q h) in
    if_split (λ (r : List ℕ × ℕ). (length r.0 < outmax) × (off ≤ r.1)) (ltb off len) _ (out, off)
      (λ _. (ih.0, omega arith)) (λ _. (h, omega arith))

fewer : (hops l : ℕ) → hops < 16 → (16 - hops) * l ≡ (16 - (hops + 1)) * l + l
fewer hops l h =
    let e : 16 - hops ≡ (16 - (hops + 1)) + 1 = omega arith in ap (λ t. t * l) e ∙ grind arith

expand_ends :
    (fuel hops : ℕ) (buf : ℕ → ℕ) (off len outmax : ℕ) (out : List ℕ)
    → (16 - hops) * (len + 1) + (len - off) < fuel
    → 0 < outmax
    → outmax < 65536
    → length out < outmax
    → (text : List ℕ) × (expand fuel hops buf off len outmax out ≡ some text)
      × (length text < outmax)
unfolding expand
expand_ends zero hops buf off len outmax out m p q h = absurd (omega arith)
expand_ends (suc fuel) hops buf off len outmax out m p q h =
    let Q = λ (r : Option (List ℕ)). (text : List ℕ) × (r ≡ some text) × (length text < outmax) in
    let b = buf off in
    let dotted : length (with_dot outmax out) < outmax =
      if_split (λ (l : List ℕ). length l < outmax) (ltb 0 (length out)) _ out
        (λ _. append_if_space-lt outmax b'.' out p q h) (λ _. h) in
    let c = copy_label b buf (off + 1) len outmax (with_dot outmax out) in
    let bounds = copy_label_bounds b buf (off + 1) len outmax (with_dot outmax out) p q dotted in
    if_split Q (not (ltb off len && ltb hops 16)) (some out) _ (λ _. (out, refl, h))
      (λ go.
        let (in_len, few) = running (ltb off len) (ltb hops 16) go in
        let lt = ltb→lt off len in_len in
        let hops_lt = ltb→lt hops 16 few in
        let less = fewer hops (len + 1) hops_lt in
        if_split Q (b == 0) (some out) _ (λ _. (out, refl, h))
          (λ _.
            if_split Q (b / 64 == 3) _ _
              (λ _.
                expand_ends fuel (hops + 1) buf (b % 64 * 256 + buf (off + 1)) len outmax out
                  (omega arith) p q h)
              (λ _. expand_ends fuel hops buf c.1 len outmax c.0 (omega arith) p q bounds.0)))
  where
    running : (a b : Bool) → not (a && b) ≡ false → (a ≡ true) × (b ≡ true)
    running true true e = (refl, refl)
    running true false e = cc e
    running false b e = cc e

-- Whatever the response holds, pointers that lead in a circle included, the expansion of a name ends, and
-- its text with the 0 behind it fits the place of `outmax` bytes, if that is not 0.
pub dns_expand_name_ends :
    (buf : ℕ → ℕ) (off len outmax : ℕ)
    → 0 < outmax
    → outmax < 65536
    → (text : List ℕ) × (dns_expand_name buf off len outmax ≡ some text)
      × (length text + 1 ≤ outmax)
unfolding dns_expand_name
dns_expand_name_ends buf off len outmax p q =
    let (text, e, h) =
      expand_ends (17 * (len + 1)) 0 buf off len outmax [] (omega arith) p q (omega arith) in
    (text, e, omega arith)
