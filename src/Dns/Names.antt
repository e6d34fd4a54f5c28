-- ===== src/Dns/Names.antt =====
-- The names and the answers of src/drivers/dns.c.
use iron_kernel.Prelude.{
  ℕ, zero, suc, ◌+◌, ◌-◌, ◌/◌, ◌%◌, ◌≤◌, ◌<◌, ◌≡◌, ◌∙◌, refl, ap, ◌&&◌, not, List, [], ◌∷◌, ◌++◌,
  arith, ltb, leb, ◌==◌, ==_iff, ==_ne, lt→ltb, ltb→lt, if_true, if_false, if_split, and_true,
  if◌then◌else◌, get_or, length, length-append, take, u8, u16,
}
use iron_kernel.Arp.{Ip}
use iron_kernel.Internet.{be16_at}
use iron_kernel.Internet.Datagrams.{get_or-append}
use iron_kernel.Dns.{
  dns_txid, label, behind, encode, dns_encode_name, skip, dns_skip_name, skip_questions, ip_here,
  collect, addresses,
}

-- Every label has 1 to 63 characters.
abbrev pub IsHost : (fuel : ℕ) → List ℕ → Type 0
IsHost zero host = Unit
IsHost (suc fuel) [] = Unit
IsHost (suc fuel) (c ∷ host) =
    (0 < length (label (c ∷ host)))
    × (length (label (c ∷ host)) < 64)
    × IsHost fuel (behind (c ∷ host))

-- The bytes at an offset.
abbrev pub Holds : (buf : ℕ → ℕ) → (off : ℕ) → List ℕ → Type 0
Holds buf off xs = (i : ℕ) → i < length xs → buf (off + i) ≡ get_or xs i 0

take_whole : (n : ℕ) (xs : List ℕ) → n ≡ length xs → take n xs ≡ xs
take_whole zero [] e = refl
take_whole (suc n) [] e = absurd (omega arith)
take_whole zero (x ∷ xs) e = absurd (omega arith)
take_whole (suc n) (x ∷ xs) e = ap (λ l. x ∷ l) (take_whole n xs (omega arith))

-- One round on a label of less than 64 bytes.
skip_label :
    (fuel : ℕ) (buf : ℕ → ℕ) (off len k : ℕ)
    → off < len
    → buf off ≡ k
    → 0 < k
    → k < 64
    → off + 1 + k < 65536
    → skip (suc fuel) buf off len ≡ skip fuel buf (off + 1 + k) len
unfolding skip
skip_label fuel buf off len k h e p q small =
    if_false _ _ _ (ap not (lt→ltb off len h))
    ∙ (if_false _ _ _ (==_ne (buf off) 0 (omega arith))
        ∙ (if_false _ _ _ (==_ne (buf off / 64) 3 (omega arith))
            ∙ ap (λ (o : ℕ). skip fuel buf o len) (omega arith)))

skip_root :
    (fuel : ℕ) (buf : ℕ → ℕ) (off len : ℕ)
    → off < len
    → buf off ≡ 0
    → off + 1 < 65536
    → skip (suc fuel) buf off len ≡ off + 1
unfolding skip
skip_root fuel buf off len h e small =
    if_false _ _ _ (ap not (lt→ltb off len h))
    ∙ (if_true _ _ _ ((==_iff (buf off) 0).1 e) ∙ omega arith)

encode_positive : (fuel : ℕ) (host : List ℕ) → 0 < length (encode fuel host)
unfolding encode
encode_positive zero host = omega arith
encode_positive (suc fuel) [] = omega arith
encode_positive (suc fuel) (c ∷ host) = omega arith

skip-encode :
    (fuel rounds : ℕ) (host : List ℕ) (buf : ℕ → ℕ) (off len : ℕ)
    → IsHost fuel host
    → Holds buf off (encode fuel host)
    → off + length (encode fuel host) ≤ len
    → length (encode fuel host) ≤ rounds
    → len < 65536
    → skip rounds buf off len ≡ off + length (encode fuel host)
unfolding encode
skip-encode fuel zero host buf off len v h fits enough small =
    absurd (let some = encode_positive fuel host in omega arith)
skip-encode zero (suc rounds) host buf off len v h fits enough small =
    skip_root rounds buf off len (omega arith) (ap buf (omega arith) ∙ h 0 (omega arith))
      (omega arith)
skip-encode (suc fuel) (suc rounds) [] buf off len v h fits enough small =
    skip_root rounds buf off len (omega arith) (ap buf (omega arith) ∙ h 0 (omega arith))
      (omega arith)
skip-encode (suc fuel) (suc rounds) (c ∷ host) buf off len (p, q, v) h fits enough small =
    let l = label (c ∷ host) in
    let k : u8 (length l) ≡ length l = omega arith in
    let whole : take (u8 (length l)) l ≡ l = take_whole (u8 (length l)) l k in
    let rest = encode fuel (behind (c ∷ host)) in
    let size : length (take (u8 (length l)) l ++ rest) ≡ length l + length rest =
      ap (λ (t : List ℕ). length (t ++ rest)) whole ∙ length-append l rest in
    let first : buf off ≡ length l = ap buf (omega arith) ∙ (h 0 (omega arith) ∙ k) in
    let below : Holds buf (off + 1 + length l) rest = λ i b.
      shift (length l) i
      ∙ (h (suc (length l + i)) (omega arith)
          ∙ (ap (λ (t : List ℕ). get_or (t ++ rest) (length l + i) 0) whole
              ∙ get_or-append l rest i 0)) in
    skip_label rounds buf off len (length l) (omega arith) first p q (omega arith)
    ∙ (skip-encode fuel rounds (behind (c ∷ host)) buf (off + 1 + length l) len v below
          (omega arith) (omega arith) small
        ∙ omega arith)
  where
    shift : (k i : ℕ) → buf (off + 1 + k + i) ≡ buf (off + suc (k + i))
    shift k i = ap buf (omega arith)

-- A name that was encoded, each of its labels with 1 to 63 characters, is skipped whole:
-- wherever its bytes stand in a response, `dns_skip_name` ends right behind them, with the rounds it
-- has.
pub dns_skip_name-dns_encode_name :
    (host : List ℕ) (buf : ℕ → ℕ) (off len : ℕ)
    → IsHost (length host) host
    → Holds buf off (dns_encode_name host)
    → off + length (dns_encode_name host) ≤ len
    → len < 65536
    → dns_skip_name buf off len ≡ off + length (dns_encode_name host)
unfolding dns_encode_name dns_skip_name
dns_skip_name-dns_encode_name host buf off len v h fits small =
    skip-encode (length host) len host buf off len v h fits (omega arith) small

collect_bound :
    (n room : ℕ) (resp : ℕ → ℕ) (rlen off : ℕ) → length (collect n room resp rlen off) ≤ room
unfolding collect
collect_bound zero room resp rlen off = omega arith
collect_bound (suc n) room resp rlen off =
    let at = dns_skip_name resp off rlen in
    let rdlen = be16_at resp (at + 8) in
    let next = u16 (at + 10 + rdlen) in
    let with = collect n (room - 1) resp rlen next in
    let without = collect n room resp rlen next in
    let found = be16_at resp at == 1 && rdlen == 4 && leb (u16 (at + 10) + 4) rlen && ltb 0 room in
    let taken = ip_here resp (u16 (at + 10)) ∷ with in
    let both = if found then taken else without in
    let whole = if ltb rlen (at + 10) then [] else both in
    if_split Q (not (ltb off rlen)) [] whole (λ e. omega arith)
      λ e.
        if_split Q (ltb rlen (at + 10)) [] both (λ z. omega arith)
          λ z.
            if_split Q found taken without
              (λ y.
                let left : 0 < room =
                  ltb→lt 0 room
                    (and_true (be16_at resp at == 1 && rdlen == 4 && leb (u16 (at + 10) + 4) rlen)
                      (ltb 0 room) y).1 in
                omega (arith, collect_bound n (room - 1) resp rlen next))
              λ y. collect_bound n room resp rlen next
  where
    Q : List Ip → Type 0
    Q l = length l ≤ room

-- The addresses of a response, whatever its bytes, fit the caller's array.
pub addresses_bound : (max : ℕ) (resp : ℕ → ℕ) (rlen : ℕ) → length (addresses max resp rlen) ≤ max
unfolding addresses
addresses_bound max resp rlen =
    let ancount = be16_at resp 6 in
    let all = collect ancount max resp rlen (skip_questions (be16_at resp 4) resp rlen 12) in
    let e = if ancount == 0 then [] else all in
    let d = if not (resp 3 % 16 == 0) then [] else e in
    let c = if not (resp 2 / 128 % 2 == 1) then [] else d in
    let b = if not (be16_at resp 0 == dns_txid) then [] else c in
    if_split Q (ltb rlen 12) [] b (λ z. omega arith)
      λ z.
        if_split Q (not (be16_at resp 0 == dns_txid)) [] c (λ z. omega arith)
          λ z.
            if_split Q (not (resp 2 / 128 % 2 == 1)) [] d (λ z. omega arith)
              λ z.
                if_split Q (not (resp 3 % 16 == 0)) [] e (λ z. omega arith)
                  λ z.
                    if_split Q (ancount == 0) [] all (λ z. omega arith)
                      λ z.
                        collect_bound ancount max resp rlen
                          (skip_questions (be16_at resp 4) resp rlen 12)
  where
    Q : List Ip → Type 0
    Q l = length l ≤ max
