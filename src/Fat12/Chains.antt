-- ===== src/Fat12/Chains.antt =====
-- The search for a free cluster in src/drivers/fat12.c.
use iron_kernel.Prelude.{
  ℕ, zero, suc, ◌+◌, ◌-◌, ◌/◌, ◌≤◌, ◌<◌, ◌≡◌, sym, subst, ◌≢◌, inl, inr, arith, false, leb,
  lt→leb_not, ◌==◌, ==_iff, Bool-cases, if_true, if_false, min,
}
use iron_kernel.Fat12.{fat12_next_cluster, free_from, fat12_alloc_cluster}

-- What a search of the clusters from `lo` up to `hi` answers.
pub data Search (fat : ℕ → ℕ) (lo hi : ℕ) : ℕ → Type 0 where
  none_free : ((k : ℕ) → lo ≤ k → k < hi → fat12_next_cluster fat k ≢ 0) → Search fat lo hi 0
  first_free :
      (c : ℕ)
      → lo ≤ c
      → c < hi
      → fat12_next_cluster fat c ≡ 0
      → ((k : ℕ) → lo ≤ k → k < c → fat12_next_cluster fat k ≢ 0)
      → Search fat lo hi c

module _ (fat : ℕ → ℕ) where
  next_step :
      (lo hi : ℕ)
      → fat12_next_cluster fat lo ≢ 0
      → ((k : ℕ) → lo + 1 ≤ k → k < hi → fat12_next_cluster fat k ≢ 0)
      → (k : ℕ) → lo ≤ k
      → k < hi
      → fat12_next_cluster fat k ≢ 0
  next_step lo hi here later k l h = elim (Bool-cases (lo == k)) [
    | inl e ↦ subst (λ j. fat12_next_cluster fat j ≢ 0) ((==_iff lo k).0 e) here
    | inr e ↦ let ne : lo ≢ k = λ p. cc (e, (==_iff lo k).1 p) in later k (omega arith) h
  ]

  widen :
      (lo hi r : ℕ) → fat12_next_cluster fat lo ≢ 0 → Search fat (lo + 1) hi r → Search fat lo hi r
  widen lo hi _ h (none_free all) = none_free (next_step lo hi h all)
  widen lo hi _ h (first_free c a b e before) =
      first_free c (omega arith) b e (next_step lo c h before)

  free_from-Search : (n lo : ℕ) → Search fat lo (lo + n) (free_from fat n lo)
  unfolding free_from
  free_from-Search zero lo = none_free λ k l h. absurd (omega arith)
  free_from-Search (suc n) lo = elim (Bool-cases (fat12_next_cluster fat lo == 0)) [
    | inl e ↦
        subst (λ r. Search fat lo (lo + suc n) r) (sym (if_true _ _ _ e))
          (first_free lo (omega arith) (omega arith) ((==_iff _ _).0 e)
            λ k l h. absurd (omega arith))
    | inr e ↦
        let used : fat12_next_cluster fat lo ≢ 0 = λ p. cc (e, (==_iff _ 0).1 p) in
        let same : lo + 1 + n ≡ lo + suc n = omega arith in
        subst (λ r. Search fat lo (lo + suc n) r) (sym (if_false _ _ _ e))
          (widen lo (lo + suc n) _ used (
            subst (λ hi. Search fat (lo + 1) hi (free_from fat n (lo + 1))) same
              (free_from-Search n (lo + 1))))
  ]

  -- On a volume with room for data, `fat12_alloc_cluster` returns the first free cluster of the
  -- volume's clusters from 2 on, below 4096, or 0 when none of these is free.
  pub fat12_alloc_cluster-Search :
      (total first per : ℕ)
      → first < total
      → Search fat 2
          (min ((total - first) / per + 2) 4096)
          (fat12_alloc_cluster total first per fat)
  unfolding fat12_alloc_cluster
  fat12_alloc_cluster-Search total first per h =
      let n = min ((total - first) / per + 2) 4096 in
      let room : leb total first ≡ false = lt→leb_not total first h in
      let same : 2 + (n - 2) ≡ n = omega arith in
      subst (λ r. Search fat 2 n r) (sym (if_false _ _ _ room))
        (subst (λ hi. Search fat 2 hi (free_from fat (n - 2) 2)) same (free_from-Search (n - 2) 2))
