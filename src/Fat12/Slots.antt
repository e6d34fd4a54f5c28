-- ===== src/Fat12/Slots.antt =====
-- Where the searches of src/drivers/fat12.c stop.
use iron_kernel.Prelude.{
  ℕ, zero, suc, ◌+◌, ◌≤◌, ◌<◌, ◌≡◌, refl, sym, ap, ◌∙◌, ◌≢◌, ◌⊎◌, inl, inr, arith, true, ◌==◌,
  ==_iff, Bool-cases, if_true, if◌then◌else◌, subst,
}
use iron_kernel.Fat12.Store.{Volume}
use iron_kernel.Fat12.Search.{
  Wanted, free_slot, named, Verdict, hit, stop, pass, judge, Scan, found, ended, more, scan, Place,
  at, nowhere, search_sectors, entry_name, same_entry,
}

Verdict-cases : (j : Verdict) → (j ≡ hit) ⊎ ((j ≡ stop) ⊎ (j ≡ pass))
Verdict-cases hit = inl refl
Verdict-cases stop = inr (inl refl)
Verdict-cases pass = inr (inr refl)

Scan-cases : (s : Scan) → ((k : ℕ) × (s ≡ found k)) ⊎ ((s ≡ ended) ⊎ (s ≡ more))
Scan-cases (found k) = inl (k, refl)
Scan-cases ended = inr (inl refl)
Scan-cases more = inr (inr refl)

module _ (w : Wanted) (b : ℕ → ℕ) where
  on_hit : (n i : ℕ) → judge w b i ≡ hit → scan (suc n) i w b ≡ found i
  unfolding scan
  on_hit n i e = rw (e, scan)

  on_stop : (n i : ℕ) → judge w b i ≡ stop → scan (suc n) i w b ≡ ended
  unfolding scan
  on_stop n i e = rw (e, scan)

  on_pass : (n i : ℕ) → judge w b i ≡ pass → scan (suc n) i w b ≡ scan n (i + 1) w b
  unfolding scan
  on_pass n i e = rw (e, scan)

  -- Every entry from `i` up to `j` passes.
  abbrev pub PassUpTo : (i j : ℕ) → Type 0
  PassUpTo i j = (k : ℕ) → i ≤ k → k < j → judge w b k ≡ pass

  PassUpTo-step : (i j : ℕ) → judge w b i ≡ pass → PassUpTo (i + 1) j → PassUpTo i j
  PassUpTo-step i j e h k l m = elim (Bool-cases (i == k)) [
    | inl q ↦ subst (λ t. judge w b t ≡ pass) ((==_iff i k).0 q) e
    | inr q ↦ let ne : i ≢ k = λ p. cc (q, (==_iff i k).1 p) in h k (omega arith) m
  ]

  pub scan-found :
      (n i j : ℕ)
      → scan n i w b ≡ found j
      → (i ≤ j) × (j < i + n) × (judge w b j ≡ hit) × PassUpTo i j
  unfolding scan
  scan-found zero i j h = cc h
  scan-found (suc n) i j h = elim (Verdict-cases (judge w b i)) [
    | inl e ↦
        let same : i ≡ j = cc (on_hit n i e, h) in
        (
          omega arith,
          omega arith,
          subst (λ t. judge w b t ≡ hit) same e,
          λ k l m. absurd (omega arith),
        )
    | inr (inl e) ↦ cc (on_stop n i e, h)
    | inr (inr e) ↦
        let ih = scan-found n (i + 1) j (sym (on_pass n i e) ∙ h) in
        (omega arith, omega arith, ih.2, PassUpTo-step i j e ih.3)
  ]

  pub found-scan :
      (n i j : ℕ) → i ≤ j → j < i + n → judge w b j ≡ hit → PassUpTo i j → scan n i w b ≡ found j
  found-scan zero i j l m h p = absurd (omega arith)
  found-scan (suc n) i j l m h p = elim (Bool-cases (i == j)) [
    | inl q ↦
        let same = (==_iff i j).0 q in
        on_hit n i (subst (λ t. judge w b t ≡ hit) (sym same) h) ∙ ap found same
    | inr q ↦
        let ne : i ≢ j = λ p. cc (q, (==_iff i j).1 p) in
        let here : judge w b i ≡ pass = p i (omega arith) (omega arith) in
        on_pass n i here
        ∙ found-scan n (i + 1) j (omega arith) (omega arith) h (λ k a c. p k (omega arith) c)
  ]

-- A search for a name ends only at an entry that was never in use, which is a free slot.
free-pass :
    (name ext b : ℕ → ℕ) (i : ℕ) → judge free_slot b i ≡ pass → judge (named name ext) b i ≢ stop
unfolding judge
free-pass name ext b i h e = elim (Bool-cases (entry_name b i 0 == 0)) [
  | inl z ↦ cc (rw z at h)
  | inr z ↦ going_on (rw z at e)
]
  where
    going_on :
        (if entry_name b i 0 == 0xE5 then pass else if same_entry b i name ext then hit else pass)
          ≡ stop
        → ⊥
    going_on e = ground arith

module _ (name ext : ℕ → ℕ) where
  abbrev want : Wanted
  want = named name ext

  free_found :
      (b : ℕ → ℕ) (n i j : ℕ)
      → scan n i free_slot b ≡ found j
      → ((k : ℕ) × (scan n i want b ≡ found k)) ⊎ PassUpTo want b i j
  unfolding scan
  free_found b zero i j h = cc h
  free_found b (suc n) i j h = elim (Verdict-cases (judge want b i)) [
    | inl e ↦ inl (i, on_hit want b n i e)
    | inr (inl e) ↦ inr λ k l m. absurd (stopped e k l m)
    | inr (inr e) ↦ elim (Verdict-cases (judge free_slot b i)) [
      | inl f ↦
          inr λ k l m. let same : i ≡ j = cc (on_hit free_slot b n i f, h) in absurd (omega arith)
      | inr (inl f) ↦ cc (on_stop free_slot b n i f, h)
      | inr (inr f) ↦ elim (free_found b n (i + 1) j (sym (on_pass free_slot b n i f) ∙ h)) [
        | inl (k, g) ↦ inl (k, on_pass want b n i e ∙ g)
        | inr p ↦ inr (PassUpTo-step want b i j e p)
      ]
    ]
  ]
    where
      stopped : judge want b i ≡ stop → (k : ℕ) → i ≤ k → k < j → ⊥
      stopped e k l m = elim (Verdict-cases (judge free_slot b i)) [
        | inl f ↦ let same : i ≡ j = cc (on_hit free_slot b n i f, h) in omega arith
        | inr (inl f) ↦ cc (on_stop free_slot b n i f, h)
        | inr (inr f) ↦ free-pass name ext b i f e
      ]

  free_more :
      (b : ℕ → ℕ) (n i : ℕ)
      → scan n i free_slot b ≡ more
      → ((k : ℕ) × (scan n i want b ≡ found k)) ⊎ (scan n i want b ≡ more)
  free_more b zero i h = inr (unfold scan in refl)
  free_more b (suc n) i h = elim (Verdict-cases (judge free_slot b i)) [
    | inl f ↦ cc (on_hit free_slot b n i f, h)
    | inr (inl f) ↦ cc (on_stop free_slot b n i f, h)
    | inr (inr f) ↦ elim (Verdict-cases (judge want b i)) [
      | inl e ↦ inl (i, on_hit want b n i e)
      | inr (inl e) ↦ absurd (free-pass name ext b i f e)
      | inr (inr e) ↦ elim (free_more b n (i + 1) (sym (on_pass free_slot b n i f) ∙ h)) [
        | inl (k, g) ↦ inl (k, on_pass want b n i e ∙ g)
        | inr g ↦ inr (on_pass want b n i e ∙ g)
      ]
    ]
  ]

module _ (w : Wanted) (v : Volume) (good : (m : ℕ) → v.readable m ≡ true) where
  sector_step :
      (n lba : ℕ) (s : Scan) (r : Place)
      → scan 16 0 w (v.disk lba) ≡ s
      → elim s as (λ _. Place) [
        | found i ↦ at lba i
        | ended ↦ nowhere
        | more ↦ search_sectors n (lba + 1) w v
      ]
        ≡ r
      → search_sectors (suc n) lba w v ≡ r
  unfolding search_sectors
  sector_step n lba s r e h =
      if_true _ _ _ (good lba)
      ∙ (ap
            (λ s. elim s as (λ _. Place) [
              | found i ↦ at lba i
              | ended ↦ nowhere
              | more ↦ search_sectors n (lba + 1) w v
            ])
            e
          ∙ h)

  -- The sectors from `lba` up to `s` hold no such entry and no end.
  abbrev pub MoreUpTo : (lba s : ℕ) → Type 0
  MoreUpTo lba s = (t : ℕ) → lba ≤ t → t < s → scan 16 0 w (v.disk t) ≡ more

  MoreUpTo-step :
      (lba s : ℕ) → scan 16 0 w (v.disk lba) ≡ more → MoreUpTo (lba + 1) s → MoreUpTo lba s
  MoreUpTo-step lba s e h t l m = elim (Bool-cases (lba == t)) [
    | inl q ↦ subst (λ t. scan 16 0 w (v.disk t) ≡ more) ((==_iff lba t).0 q) e
    | inr q ↦ let ne : lba ≢ t = λ p. cc (q, (==_iff lba t).1 p) in h t (omega arith) m
  ]

  pub search-at :
      (n lba s j : ℕ)
      → search_sectors n lba w v ≡ at s j
      → (lba ≤ s) × (s < lba + n) × (scan 16 0 w (v.disk s) ≡ found j) × MoreUpTo lba s
  unfolding search_sectors
  search-at zero lba s j h = cc h
  search-at (suc n) lba s j h = elim (Scan-cases (scan 16 0 w (v.disk lba))) [
    | inl (i, e) ↦
        let here = sector_step n lba (found i) (at lba i) e refl in
        let same : lba ≡ s = cc (here, h) in
        let idx : i ≡ j = cc (here, h) in
        (
          omega arith,
          omega arith,
          ap (λ t. scan 16 0 w (v.disk t)) (sym same) ∙ (e ∙ ap found idx),
          λ t l m. absurd (omega arith),
        )
    | inr (inl e) ↦ cc (sector_step n lba ended nowhere e refl, h)
    | inr (inr e) ↦
        let ih = search-at n (lba + 1) s j (sym (sector_step n lba more _ e refl) ∙ h) in
        (omega arith, omega arith, ih.2, MoreUpTo-step lba s e ih.3)
  ]

  pub at-search :
      (n lba s j : ℕ)
      → lba ≤ s
      → s < lba + n
      → scan 16 0 w (v.disk s) ≡ found j
      → MoreUpTo lba s
      → search_sectors n lba w v ≡ at s j
  at-search zero lba s j l m h p = absurd (omega arith)
  at-search (suc n) lba s j l m h p = elim (Bool-cases (lba == s)) [
    | inl q ↦
        let same = (==_iff lba s).0 q in
        sector_step n lba (found j) (at s j) (ap (λ t. scan 16 0 w (v.disk t)) same ∙ h)
          (ap (λ t. at t j) same)
    | inr q ↦
        let ne : lba ≢ s = λ p. cc (q, (==_iff lba s).1 p) in
        sector_step n lba more _ (p lba (omega arith) (omega arith))
          (at-search n (lba + 1) s j (omega arith) (omega arith) h (λ t k a. p t (omega arith) a))
  ]

-- Where a free slot is found, a search for a name has found its entry before, or it comes to the slot.
pub free_slot-named :
    (name ext : ℕ → ℕ) (v : Volume) (good : (m : ℕ) → v.readable m ≡ true) (n lba s j : ℕ)
    → search_sectors n lba free_slot v ≡ at s j
    → ((t k : ℕ) → search_sectors n lba (named name ext) v ≢ at t k)
    → MoreUpTo (named name ext) v good lba s × PassUpTo (named name ext) (v.disk s) 0 j
free_slot-named name ext v good zero lba s j h none =
    absurd (let k = search-at free_slot v good zero lba s j h in omega arith)
free_slot-named name ext v good (suc n) lba s j h none =
    elim (Scan-cases (scan 16 0 free_slot (v.disk lba))) [
      | inl (i, e) ↦
          let here = sector_step free_slot v good n lba (found i) (at lba i) e refl in
          let same : lba ≡ s = cc (here, h) in
          let idx : i ≡ j = cc (here, h) in
          elim (free_found name ext (v.disk lba) 16 0 i e) [
            | inl (k, g) ↦
                absurd (none lba k (sector_step (named name ext) v good n lba (found k) _ g refl))
            | inr p ↦ (
              λ t l m. absurd (omega arith),
              subst (λ t. PassUpTo (named name ext) (v.disk t) 0 j) same
                  (subst (λ k. PassUpTo (named name ext) (v.disk lba) 0 k) idx p),
            )
          ]
      | inr (inl e) ↦ cc (sector_step free_slot v good n lba ended nowhere e refl, h)
      | inr (inr e) ↦ elim (free_more name ext (v.disk lba) 16 0 e) [
        | inl (k, g) ↦
            absurd (none lba k (sector_step (named name ext) v good n lba (found k) _ g refl))
        | inr g ↦
            let rest = sector_step (named name ext) v good n lba more _ g refl in
            let ih =
              free_slot-named name ext v good n (lba + 1) s j
                (sym (sector_step free_slot v good n lba more _ e refl) ∙ h)
                (λ t k a. none t k (rest ∙ a)) in
            (MoreUpTo-step (named name ext) v good lba s g ih.0, ih.1)
      ]
    ]
