-- ===== src/Arp/Resolve.antt =====
-- `arp_resolve` of src/drivers/arp.c: what it returns, and that an answer in time is enough.
use iron_kernel.Prelude.{
  ℕ, zero, suc, ◌<◌, arith, ◌≡◌, refl, Option, none, some, Bool, true, false, List, [], ◌∷◌, ◌++◌,
  take, All, leb, length, if◌then◌else◌,
}
use iron_kernel.Arp.{
  Ip, Mac, Cache, Poll, arp_cache_lookup, arp_cache_insert, on_frame, word_at, on_poll, wait,
  wait_iterations, attempts, arp_resolve,
}
use iron_kernel.Arp.Cache.{arp_cache_lookup-arp_cache_insert}
use iron_kernel.Arp.Exchange.{answer, arp_recv-answer}

-- What is returned is what the cache holds afterwards.
abbrev pub Cached : Ip → Option Mac × Cache → Type 0
Cached ip r = (m : Mac) → r.0 ≡ some m → arp_cache_lookup r.1 ip ≡ some m

if_Cached :
    (ip : Ip) (b : Bool) (x y : Option Mac × Cache)
    → Cached ip x
    → Cached ip y
    → Cached ip (if b then x else y)
if_Cached ip true x y h h' = h
if_Cached ip false x y h h' = h'

nothing-Cached : (ip : Ip) (c : Cache) → Cached ip (none, c)
nothing-Cached ip c m h = cc h

module _ (ip : Ip) (c : Cache) (x : Option Mac × Cache) where
  -- the first find ends a loop
  found-Cached :
      (o : Option Mac)
      → Cached ip (o, c)
      → Cached ip x
      → Cached ip (elim o [ some m ↦ (some m, c) | none ↦ x ])
  found-Cached (some m) h h' = h
  found-Cached none h h' = h'

  found-some :
      (o : Option Mac)
      → ((o ≡ none) → (m : Mac) × (x.0 ≡ some m))
      → (m : Mac) × ((elim o as (λ o. Option Mac × Cache) [ some m ↦ (some m, c) | none ↦ x ]).0
          ≡ some m)
  found-some (some m) h = (m, refl)
  found-some none h = h refl

  found-first :
      (o : Option Mac) (m : Mac)
      → o ≡ some m
      → (m : Mac) × ((elim o as (λ o. Option Mac × Cache) [ some m ↦ (some m, c) | none ↦ x ]).0
          ≡ some m)
  found-first (some m) _ e = (m, refl)
  found-first none _ e = cc e

abbrev pub InTime : Poll → Type 0
InTime p = p.timed_out ≡ false

-- the turn on which the host `mac` answers
abbrev pub answered : Mac → Ip → Ip → Mac → Bool → Poll
answered my_mac my_ip ip mac late = record {
  received = some (answer my_mac my_ip mac ip);
  timed_out = late;
}

module _ (my_mac : Mac) (my_ip ip : Ip) where
  on_poll-Cached : (o : Option (List ℕ)) (c : Cache) → Cached ip (on_poll my_mac my_ip ip o c)
  unfolding on_poll on_frame
  on_poll-Cached none c = nothing-Cached ip c
  on_poll-Cached (some buf) c =
      if_Cached ip (leb 14 (length buf)) _ _ (λ m h. h) (nothing-Cached ip c)

  wait-Cached :
      (iters : ℕ) (polls : List Poll) (c : Cache) → Cached ip (wait iters my_mac my_ip ip polls c)
  unfolding wait
  wait-Cached zero polls c = nothing-Cached ip c
  wait-Cached (suc iters) [] c = nothing-Cached ip c
  wait-Cached (suc iters) (p ∷ polls) c =
      let r = on_poll my_mac my_ip ip p.received c in
      found-Cached ip r.1 _ r.0 (on_poll-Cached p.received c)
        (if_Cached ip p.timed_out _ _ (nothing-Cached ip r.1) (wait-Cached iters polls r.1))

  attempts-Cached :
      (turns : List (List Poll)) (c : Cache) → Cached ip (attempts my_mac my_ip ip turns c)
  unfolding attempts
  attempts-Cached [] c = nothing-Cached ip c
  attempts-Cached (polls ∷ more) c =
      let r = wait wait_iterations my_mac my_ip ip polls c in
      found-Cached ip r.1 _ r.0 (wait-Cached wait_iterations polls c)
        (found-Cached ip r.1 _ (arp_cache_lookup r.1 ip) (λ m h. h) (attempts-Cached more r.1))

  -- Whatever frames come in and however the time passes, an address that `arp_resolve` returns is
  -- the one that the cache holds for `ip` when it returns.
  pub arp_resolve_lem :
      (turns : List (List Poll)) (c : Cache) → Cached ip (arp_resolve my_mac my_ip ip turns c)
  unfolding arp_resolve
  arp_resolve_lem turns c =
      found-Cached ip c _ (arp_cache_lookup c ip) (λ m h. h) (attempts-Cached (take 3 turns) c)

  on_poll-answer :
      (mac : Mac) (c : Cache)
      → on_poll my_mac my_ip ip (some (answer my_mac my_ip mac ip)) c
        ≡ (some mac, arp_cache_insert c ip mac)
  unfolding on_poll on_frame word_at
  on_poll-answer mac c =
      rw (arp_recv-answer my_mac mac my_ip ip c, arp_cache_lookup-arp_cache_insert c ip mac) refl

  heard :
      (iters : ℕ) (mac : Mac) (before after : List Poll) (late : Bool) (c : Cache)
      → length before < iters
      → All InTime before
      → (m : Mac) × ((wait iters my_mac my_ip ip
            (before ++ (answered my_mac my_ip ip mac late ∷ after))
            c).0
          ≡ some m)
  unfolding wait
  heard zero mac before after late c short h = absurd (omega arith)
  heard (suc iters) mac [] after late c short h =
      let r = on_poll my_mac my_ip ip (some (answer my_mac my_ip mac ip)) c in
      found-first ip r.1 _ r.0 mac (rw (on_poll-answer mac c) refl)
  heard (suc iters) mac (p ∷ before) after late c short h =
      let r = on_poll my_mac my_ip ip p.received c in
      found-some ip r.1 _ r.0
        λ e. rw (h.0) (heard iters mac before after late r.1 (omega arith) h.1)

  -- If the host with the address `ip` answers the first request before the second is over and before the
  -- 8000000 polls of that wait are used up, then `arp_resolve` returns a hardware address, whatever
  -- other frames come in during the wait.
  pub arp_resolve-answered :
      (mac : Mac) (before after : List Poll) (late : Bool) (more : List (List Poll)) (c : Cache)
      → length before < wait_iterations
      → All InTime before
      → (m : Mac) × ((arp_resolve my_mac my_ip ip
            ((before ++ (answered my_mac my_ip ip mac late ∷ after)) ∷ more)
            c).0
          ≡ some m)
  unfolding arp_resolve attempts
  arp_resolve-answered mac before after late more c short h =
      let r =
        wait wait_iterations my_mac my_ip ip (before ++ (answered my_mac my_ip ip mac late ∷ after))
          c in
      let (m, e) = heard wait_iterations mac before after late c short h in
      found-some ip c _ (arp_cache_lookup c ip) λ _. found-first ip r.1 _ r.0 m e
