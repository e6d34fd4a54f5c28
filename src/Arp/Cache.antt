-- ===== src/Arp/Cache.antt =====
-- The cache of src/drivers/arp.c as a map from addresses.
use iron_kernel.Prelude.{
  ℕ, zero, suc, ◌+◌, ◌-◌, ◌≤◌, ◌<◌, ◌≡◌, ◌∙◌, refl, sym, subst, ◌≢◌, ◌⊎◌, inl, inr, Bool, true,
  false, ◌&&◌, Option, none, some, arith, ◌==◌, ==_iff, ==_refl, Bool-cases, and_true, update_same,
  update_ne, update,
}
use iron_kernel.Arp.{
  Ip, Mac, Entry, Cache, same_ip, lookup_from, arp_cache_lookup, slot_from, or_first, or_slot,
  arp_cache_insert, arp_cache_size,
}

-- The entry is found by a lookup of `ip`.
abbrev pub hit : Ip → Entry → Bool
hit ip e = e.valid && same_ip e.ip ip

pub same_ip_refl : (a : Ip) → same_ip a a ≡ true
same_ip_refl a = rw (==_refl a.ip0, ==_refl a.ip1, ==_refl a.ip2, ==_refl a.ip3) refl

-- What the search for a slot gives, from the entry `i` on.
data Slot (c : Cache) (ip : Ip) (n i : ℕ) (before : Option ℕ) : Option ℕ → Type 0 where
  known :
      (j : ℕ)
      → i ≤ j
      → j < i + n
      → hit ip (c j) ≡ true
      → ((k : ℕ) → i ≤ k → k < j → hit ip (c k) ≡ false)
      → Slot c ip n i before (some j)
  free :
      (j : ℕ)
      → i ≤ j
      → j < i + n
      → (c j).valid ≡ false
      → before ≡ none
      → ((k : ℕ) → i ≤ k → k < i + n → hit ip (c k) ≡ false)
      → Slot c ip n i before (some j)
  same :
      (s : Option ℕ)
      → s ≡ before
      → (before ≡ none → (k : ℕ) → i ≤ k → k < i + n → (c k).valid ≡ true)
      → ((k : ℕ) → i ≤ k → k < i + n → hit ip (c k) ≡ false)
      → Slot c ip n i before s

-- A fact of every index from `i` on is one of `i` and of those behind it.
from_step :
    {P : ℕ → Type 0} (i m : ℕ)
    → P i
    → ((k : ℕ) → suc i ≤ k → k < m → P k)
    → (k : ℕ) → i ≤ k
    → k < m
    → P k
from_step {P = P} i m here later k l h = elim (Bool-cases (i == k)) [
  | inl e ↦ subst P ((==_iff i k).0 e) here
  | inr e ↦ let ne : i ≢ k = λ p. cc (e, (==_iff i k).1 p) in later k (omega arith) h
]

not_valid-hit : (ip : Ip) (e : Entry) → e.valid ≡ false → hit ip e ≡ false
not_valid-hit ip e h = rw h refl

not_same-hit : (ip : Ip) (e : Entry) → same_ip e.ip ip ≡ false → hit ip e ≡ false
not_same-hit ip e h = elim (Bool-cases e.valid) [ inl v ↦ rw (v, h) refl | inr v ↦ rw v refl ]

module _ (c : Cache) (ip : Ip) (n i : ℕ) where
  pass :
      (before s : Option ℕ)
      → (c i).valid ≡ true
      → hit ip (c i) ≡ false
      → Slot c ip n (suc i) before s
      → Slot c ip (suc n) i before s
  pass before _ v e (known j l h f others) =
      known j (omega arith) (omega arith) f (from_step i j e others)
  pass before _ v e (free j l h f b others) =
      free j (omega arith) (omega arith) f b
        λ k a d. from_step i (suc i + n) e others k a (omega arith)
  pass before s v e (same _ p full others) =
      same s p (λ b k a d. from_step i (suc i + n) v (full b) k a (omega arith))
        λ k a d. from_step i (suc i + n) e others k a (omega arith)

  -- a free entry that is not the first one leaves the slot as it is
  later :
      (b : ℕ) (s : Option ℕ)
      → (c i).valid ≡ false
      → Slot c ip n (suc i) (some b) s
      → Slot c ip (suc n) i (some b) s
  later b _ v (known j l h f others) =
      known j (omega arith) (omega arith) f (from_step i j (not_valid-hit ip (c i) v) others)
  later b _ v (free j l h f p others) = cc p
  later b s v (same _ p full others) =
      same s p (λ q. cc q)
        λ k a d. from_step i (suc i + n) (not_valid-hit ip (c i) v) others k a (omega arith)

  first :
      (s : Option ℕ)
      → (c i).valid ≡ false
      → Slot c ip n (suc i) (some i) s
      → Slot c ip (suc n) i none s
  first _ v (known j l h f others) =
      known j (omega arith) (omega arith) f (from_step i j (not_valid-hit ip (c i) v) others)
  first _ v (free j l h f p others) = cc p
  first s v (same _ p full others) =
      subst (λ o. Slot c ip (suc n) i none o) (sym p)
        (free i (omega arith) (omega arith) v refl
          λ k a d. from_step i (suc i + n) (not_valid-hit ip (c i) v) others k a (omega arith))

  take_free :
      (before s : Option ℕ)
      → (c i).valid ≡ false
      → Slot c ip n (suc i) (or_slot before i) s
      → Slot c ip (suc n) i before s
  take_free none s v r = first s v r
  take_free (some b) s v r = later b s v r

slot_lem :
    (c : Cache) (ip : Ip) (n i : ℕ) (before : Option ℕ)
    → Slot c ip n i before (slot_from c ip n i before)
unfolding slot_from
slot_lem c ip zero i before =
    same before refl (λ e k l h. absurd (omega arith)) λ k l h. absurd (omega arith)
slot_lem c ip (suc n) i before = elim (Bool-cases (c i).valid) [
  | inl v ↦ elim (Bool-cases (same_ip (c i).ip ip)) [
    | inl e ↦
        rw (v, e)
          (known i (omega arith) (omega arith) (rw (v, e) refl) λ k l h. absurd (omega arith))
    | inr e ↦
        rw (v, e)
          (pass c ip n i before _ v (not_same-hit ip (c i) e) (slot_lem c ip n (suc i) before))
  ]
  | inr v ↦ rw v (take_free c ip n i before _ v (slot_lem c ip n (suc i) (or_slot before i)))
]

lookup_miss :
    (c : Cache) (ip : Ip) (n i : ℕ)
    → hit ip (c i) ≡ false
    → lookup_from c ip (suc n) i ≡ lookup_from c ip n (suc i)
unfolding lookup_from
lookup_miss c ip n i h = elim (Bool-cases (c i).valid) [
  | inl v ↦ rw (v, subst (λ b. (b && same_ip (c i).ip ip) ≡ false) v h) refl
  | inr v ↦ rw v refl
]

lookup_hit :
    (c : Cache) (ip : Ip) (n i : ℕ)
    → hit ip (c i) ≡ true
    → lookup_from c ip (suc n) i ≡ some (c i).mac
unfolding lookup_from
lookup_hit c ip n i h = elim (Bool-cases (c i).valid) [
  | inl v ↦ rw (v, subst (λ b. (b && same_ip (c i).ip ip) ≡ true) v h) refl
  | inr v ↦ cc (h, not_valid-hit ip (c i) v)
]

lookup_at :
    (c : Cache) (ip : Ip) (n i j : ℕ)
    → i ≤ j
    → j < i + n
    → hit ip (c j) ≡ true
    → ((k : ℕ) → i ≤ k → k < j → hit ip (c k) ≡ false)
    → lookup_from c ip n i ≡ some (c j).mac
lookup_at c ip zero i j l h e others = absurd (omega arith)
lookup_at c ip (suc n) i j l h e others = elim (Bool-cases (i == j)) [
  | inl p ↦
      let q = (==_iff i j).0 p in
      subst (λ k. lookup_from c ip (suc n) i ≡ some (c k).mac) q (lookup_hit c ip n i (rw q e))
  | inr p ↦
      let ne : i ≢ j = λ q. cc (p, (==_iff i j).1 q) in
      lookup_miss c ip n i (others i (omega arith) (omega arith))
      ∙ lookup_at c ip n (suc i) j (omega arith) (omega arith) e λ k a b. others k (omega arith) b
]

-- the entry that an insertion writes
abbrev made : Ip → Mac → Entry
made ip mac = record { ip = ip; mac = mac; valid = true }

made-hit : (ip : Ip) (mac : Mac) → hit ip (made ip mac) ≡ true
made-hit ip mac = same_ip_refl ip

written :
    (c : Cache) (ip : Ip) (mac : Mac) (j : ℕ)
    → j < arp_cache_size
    → ((k : ℕ) → k < j → hit ip (c k) ≡ false)
    → arp_cache_lookup (update c j (made ip mac)) ip ≡ some mac
unfolding arp_cache_lookup
written c ip mac j h others =
    let at = update_same c j (made ip mac) in
    lookup_at (update c j (made ip mac)) ip arp_cache_size 0 j (omega arith) (omega arith)
      (rw at (made-hit ip mac))
      (λ k a b. rw (update_ne c j k (made ip mac) (omega arith)) (others k b))
    ∙ rw at refl

-- After an insertion, whatever the cache held, full or not, a lookup of the address gives the
-- hardware address that was inserted.
pub arp_cache_lookup-arp_cache_insert :
    (c : Cache) (ip : Ip) (mac : Mac) → arp_cache_lookup (arp_cache_insert c ip mac) ip ≡ some mac
unfolding arp_cache_insert
arp_cache_lookup-arp_cache_insert c ip mac = go _ (slot_lem c ip arp_cache_size 0 none)
  where
    go :
        (s : Option ℕ)
        → Slot c ip arp_cache_size 0 none s
        → arp_cache_lookup (update c (or_first s) (made ip mac)) ip ≡ some mac
    go _ (known j l h f others) = written c ip mac j h λ k b. others k (omega arith) b
    go _ (free j l h f p others) = written c ip mac j h λ k b. others k (omega arith) (omega arith)
    go _ (same s p full others) =
        rw p (written c ip mac 0 (omega arith) λ k b. absurd (omega arith))

same_ip_eq : (a b : Ip) → same_ip a b ≡ true → a ≡ b
same_ip_eq a b h =
    let (h2, e3) =
      and_true (a.ip0 == b.ip0 && a.ip1 == b.ip1 && a.ip2 == b.ip2) (a.ip3 == b.ip3) h in
    let (h1, e2) = and_true (a.ip0 == b.ip0 && a.ip1 == b.ip1) (a.ip2 == b.ip2) h2 in
    let (e0, e1) = and_true (a.ip0 == b.ip0) (a.ip1 == b.ip1) h1 in
    let p0 = (==_iff a.ip0 b.ip0).0 e0 in
    let p1 = (==_iff a.ip1 b.ip1).0 e1 in
    let p2 = (==_iff a.ip2 b.ip2).0 e2 in
    let p3 = (==_iff a.ip3 b.ip3).0 e3 in
    λ i. record { ip0 = p0 i; ip1 = p1 i; ip2 = p2 i; ip3 = p3 i }

other-hit : (e : Entry) (ip ip' : Ip) → same_ip ip ip' ≡ false → hit ip e ≡ true → hit ip' e ≡ false
other-hit e ip ip' ne h =
    let (v, s) = and_true e.valid _ h in
    not_same-hit ip' e (subst (λ a. same_ip a ip' ≡ false) (sym (same_ip_eq e.ip ip s)) ne)

-- Writing an entry that a lookup skips, before and after, leaves the lookup as it is.
skipped :
    (c : Cache) (ip : Ip) (j : ℕ) (e : Entry) (n i : ℕ)
    → hit ip (c j) ≡ false
    → hit ip e ≡ false
    → lookup_from (update c j e) ip n i ≡ lookup_from c ip n i
unfolding lookup_from
skipped c ip j e zero i h h' = refl
skipped c ip j e (suc n) i h h' =
    let ih = skipped c ip j e n (suc i) h h' in
    elim (Bool-cases (i == j)) [
      | inl p ↦
          let q = sym ((==_iff i j).0 p) in
          let at : hit ip (update c j e i) ≡ false =
            subst (λ k. hit ip (update c j e k) ≡ false) q (rw (update_same c j e) h') in
          lookup_miss (update c j e) ip n i at
          ∙ ih
          ∙ sym (lookup_miss c ip n i (subst (λ k. hit ip (c k) ≡ false) q h))
      | inr p ↦ let ne : i ≢ j = λ q. cc (p, (==_iff i j).1 q) in rw (update_ne c j i e ne, ih) refl
    ]

-- An insertion leaves the lookups of all other addresses as they were, as long as the cache has
-- a free entry or an entry for the inserted address.
pub arp_cache_insert-others :
    (c : Cache) (ip ip' : Ip) (mac : Mac) (j : ℕ)
    → same_ip ip ip' ≡ false
    → j < arp_cache_size
    → ((c j).valid ≡ false) ⊎ (hit ip (c j) ≡ true)
    → arp_cache_lookup (arp_cache_insert c ip mac) ip' ≡ arp_cache_lookup c ip'
unfolding arp_cache_insert arp_cache_lookup
arp_cache_insert-others c ip ip' mac j ne l room = go _ (slot_lem c ip arp_cache_size 0 none)
  where
    unseen : hit ip' (made ip mac) ≡ false
    unseen = ne

    go :
        (s : Option ℕ)
        → Slot c ip arp_cache_size 0 none s
        → lookup_from (update c (or_first s) (made ip mac)) ip' arp_cache_size 0
          ≡ lookup_from c ip' arp_cache_size 0
    go _ (known k a b f others) =
        skipped c ip' k (made ip mac) arp_cache_size 0 (other-hit (c k) ip ip' ne f) unseen
    go _ (free k a b f p others) =
        skipped c ip' k (made ip mac) arp_cache_size 0 (not_valid-hit ip' (c k) f) unseen
    go _ (same s p full others) = elim room [
      | inl v ↦ cc (v, full refl j (omega arith) l)
      | inr v ↦ cc (v, others j (omega arith) l)
    ]

behind_first :
    (c : Cache) (ip : Ip) (e : Entry) (n i : ℕ)
    → 0 < i
    → lookup_from (update c 0 e) ip n i ≡ lookup_from c ip n i
unfolding lookup_from
behind_first c ip e zero i h = refl
behind_first c ip e (suc n) i h =
    rw (update_ne c 0 i e (omega arith), behind_first c ip e n (suc i) (omega arith)) refl

-- An insertion of a new address into a full cache takes the first entry: a lookup of any other
-- address searches the seven entries behind it.
pub arp_cache_insert_evicts :
    (c : Cache) (ip ip' : Ip) (mac : Mac)
    → same_ip ip ip' ≡ false
    → ((k : ℕ) → k < arp_cache_size → (c k).valid ≡ true)
    → ((k : ℕ) → k < arp_cache_size → hit ip (c k) ≡ false)
    → arp_cache_lookup (arp_cache_insert c ip mac) ip' ≡ lookup_from c ip' (arp_cache_size - 1) 1
unfolding arp_cache_insert arp_cache_lookup
arp_cache_insert_evicts c ip ip' mac ne full new = go _ (slot_lem c ip arp_cache_size 0 none)
  where
    go :
        (s : Option ℕ)
        → Slot c ip arp_cache_size 0 none s
        → lookup_from (update c (or_first s) (made ip mac)) ip' arp_cache_size 0
          ≡ lookup_from c ip' 7 1
    go _ (known k a b f others) = cc (f, new k b)
    go _ (free k a b f p others) = cc (f, full k b)
    go _ (same s p _ others) = rw p (
        lookup_miss (update c 0 (made ip mac)) ip' 7 0 ne
        ∙ behind_first c ip' (made ip mac) 7 1 (omega arith))
