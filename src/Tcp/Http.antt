-- ===== src/Tcp/Http.antt =====
-- The client of HTTP/1.0 in src/drivers/tcp.c: `http_get` and the request it sends. The texts are the
-- characters before the 0.
use iron_kernel.Prelude.{
  ℕ, zero, suc, ◌+◌, ◌<◌, ◌≡◌, refl, ap, Bool, true, false, ◌&&◌, not, Option, none, some, List, [],
  ◌∷◌, ◌++◌, arith, ltb, ◌==◌, if_split, if◌then◌else◌, get_or, length, take, drop, drop-nil,
}
use iron_kernel.Arp.{Ip, Mac}
use iron_kernel.Tcp.{Host, Turn, tcp_rx_size}
use iron_kernel.Tcp.Machine.{tcp_connect, tcp_send_data, tcp_recv_data, tcp_close}

abbrev pub get_space : List ℕ → List ℕ
get_space l = b'G' ∷ b'E' ∷ b'T' ∷ b' ' ∷ l

-- " HTTP/1.0\r\nHost: "
abbrev pub http_host : List ℕ → List ℕ
http_host l =
    b' ' ∷ b'H' ∷ b'T' ∷ b'T' ∷ b'P' ∷ b'/' ∷ b'1' ∷ b'.' ∷ b'0' ∷ 13 ∷ 10 ∷ b'H' ∷ b'o' ∷ b's'
    ∷ b't' ∷ b':' ∷ b' ' ∷ l

-- "\r\nConnection: close\r\n\r\n"
abbrev pub connection_close : List ℕ
connection_close =
    13 ∷ 10 ∷ b'C' ∷ b'o' ∷ b'n' ∷ b'n' ∷ b'e' ∷ b'c' ∷ b't' ∷ b'i' ∷ b'o' ∷ b'n' ∷ b':' ∷ b' '
    ∷ b'c' ∷ b'l' ∷ b'o' ∷ b's' ∷ b'e' ∷ 13 ∷ 10 ∷ 13 ∷ 10 ∷ []

-- `req`; a path and a host of more than 468 characters together write past its 512 bytes, which is not
-- modelled.
unfoldable pub http_request : (host path : List ℕ) → List ℕ
http_request host path = get_space (path ++ http_host (host ++ connection_close))

-- Whether the four bytes "\r\n\r\n" stand at the start.
abbrev pub is_blank_line : List ℕ → Bool
is_blank_line l =
    get_or l 0 0 == 13 && get_or l 1 0 == 10 && get_or l 2 0 == 13 && get_or l 3 0 == 10

-- The loop that looks for the end of the headers: what stands behind it.
unfoldable pub after_headers : (raw : List ℕ) → Option (List ℕ)
after_headers [] = none
after_headers (x ∷ raw) =
    let rest = after_headers raw in if is_blank_line (x ∷ raw) then some (drop 3 raw) else rest

-- Without an end of the headers `body_start` is 0.
abbrev pub or_whole : Option (List ℕ) → (raw : List ℕ) → List ℕ
or_whole none raw = raw
or_whole (some body) raw = body

unfoldable pub http_body : (maxlen : ℕ) → (raw : List ℕ) → List ℕ
http_body maxlen raw =
    let body = or_whole (after_headers raw) raw in
    take (if ltb maxlen (length body) then maxlen else length body) body

module _ (resolve : Ip → Option Mac) (my_mac : Mac) where
  -- The attempts from the `i`-th on, `k` of them, each with its ticks and the turns of its wait.
  unfoldable pub connect_tries :
      (ip : Ip) → (port : ℕ) → (tries : ℕ → ℕ × List Turn) → (k i : ℕ) → Host → Bool × Host
  connect_tries ip port tries zero i h = (false, h)
  connect_tries ip port tries (suc k) i h =
      let (ok, h1) = tcp_connect resolve my_mac (tries i).0 ip port (tries i).1 h in
      let rest = connect_tries ip port tries k (i + 1) h1 in if ok then (true, h1) else rest

  -- The response, after the request was sent.
  unfoldable pub response :
      (maxlen : ℕ) → (recv : ℕ × List Turn) → (last : ℕ) → Host → Option (List ℕ) × Host
  response maxlen recv last h =
      let (raw, h1) = tcp_recv_data resolve my_mac tcp_rx_size 1000 recv.0 recv.1 h in
      let h2 = tcp_close resolve my_mac last h1 in
      (if length raw == 0 then none else some (http_body maxlen raw), h2)

  -- `now` is the tick at which the request is sent, `recv` the tick and the turns of the wait for the
  -- response, `last` the tick at which the connection is closed.
  unfoldable pub http_get :
      (ip : Ip)
      → (port : ℕ) → (host path : List ℕ) → (maxlen : ℕ) → (tries : ℕ → ℕ × List Turn) → (now : ℕ)
      → (recv : ℕ × List Turn) → (last : ℕ) → Host
      → Option (List ℕ) × Host
  http_get ip port host path maxlen tries now recv last h =
      let (ok, h1) = connect_tries ip port tries 3 0 h in
      let (sent, h2) = tcp_send_data resolve my_mac now (http_request host path) h1 in
      if not ok
      then (none, h1)
      else if not sent
      then (none, tcp_close resolve my_mac last h2)
      else response maxlen recv last h2

-- The two outcomes of the search: no blank line, or the first one, behind the headers.
abbrev pub Split : (raw : List ℕ) → Option (List ℕ) → Type 0
Split raw none = (i : ℕ) → is_blank_line (drop i raw) ≡ false
Split raw (some body) =
    (headers : List ℕ) × (raw ≡ headers ++ (13 ∷ 10 ∷ 13 ∷ 10 ∷ body))
    × ((i : ℕ) → i < length headers → is_blank_line (drop i raw) ≡ false)

nowhere :
    (x : ℕ) (raw : List ℕ)
    → is_blank_line (x ∷ raw) ≡ false
    → ((i : ℕ) → is_blank_line (drop i raw) ≡ false)
    → (i : ℕ) → is_blank_line (drop i (x ∷ raw)) ≡ false
nowhere x raw e s zero = e
nowhere x raw e s (suc i) = s i

before :
    (x : ℕ) (raw : List ℕ) (headers : List ℕ)
    → is_blank_line (x ∷ raw) ≡ false
    → ((i : ℕ) → i < length headers → is_blank_line (drop i raw) ≡ false)
    → (i : ℕ) → i < length (x ∷ headers)
    → is_blank_line (drop i (x ∷ raw)) ≡ false
before x raw headers e s zero l = e
before x raw headers e s (suc i) l = s i (omega arith)

four :
    (a b c d : ℕ)
    → (a == 13 && b == 10 && c == 13 && d == 10) ≡ true
    → (a ≡ 13) × (b ≡ 10) × (c ≡ 13) × (d ≡ 10)
four a b c d e = ground arith

blank_line : (l : List ℕ) → is_blank_line l ≡ true → l ≡ 13 ∷ 10 ∷ 13 ∷ 10 ∷ drop 4 l
blank_line [] e = absurd (let (p, q, r, s) = four 0 0 0 0 e in omega arith)
blank_line (a ∷ []) e = absurd (let (p, q, r, s) = four a 0 0 0 e in omega arith)
blank_line (a ∷ b ∷ []) e = absurd (let (p, q, r, s) = four a b 0 0 e in omega arith)
blank_line (a ∷ b ∷ c ∷ []) e = absurd (let (p, q, r, s) = four a b c 0 e in omega arith)
blank_line (a ∷ b ∷ c ∷ d ∷ l) e = let (p, q, r, s) = four a b c d e in rw (p, q, r, s) refl

-- A response is split at its first blank line: the body is what stands behind it, and in the headers
-- no blank line begins; when there is none, the whole is the body.
pub after_headers_lem : (raw : List ℕ) → Split raw (after_headers raw)
unfolding after_headers
after_headers_lem [] = λ i. ap is_blank_line (drop-nil i)
after_headers_lem (x ∷ raw) =
    if_split (Split (x ∷ raw)) (is_blank_line (x ∷ raw)) (some (drop 3 raw)) (after_headers raw)
      (λ e. ([], blank_line (x ∷ raw) e, λ i l. absurd (omega arith)))
      λ e. later (after_headers raw) e (after_headers_lem raw)
  where
    later :
        (o : Option (List ℕ)) → is_blank_line (x ∷ raw) ≡ false → Split raw o → Split (x ∷ raw) o
    later none e s = nowhere x raw e s
    later (some body) e (headers, q, first) =
        (x ∷ headers, ap (λ l. x ∷ l) q, before x raw headers e first)
