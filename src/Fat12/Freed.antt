-- ===== src/Fat12/Freed.antt =====
-- The release of a chain in src/drivers/fat12.c.
use iron_kernel.Prelude.{
  ℕ, zero, suc, ◌+◌, ◌≤◌, ◌≡◌, refl, sym, ap, ◌∙◌, ◌≢◌, inl, inr, arith, Bool, true, false, List,
  [], ◌∷◌, length, ◌==◌, ==_iff, ==_ne, if_true, if_false, if◌then◌else◌, Bool-cases, All, subst,
}
use iron_kernel.Fat12.{fat12_next_cluster, fat12_set_cluster, free_chain, fat12_free_chain}
use iron_kernel.Fat12.Table.{AreBytes, fat12_next_cluster-fat12_set_cluster}
use iron_kernel.Fat12.Search.{is_data_cluster}
use iron_kernel.Fat12.Written.{IsCluster, fat12_set_cluster-AreBytes}

-- The entries of the table lead from a cluster through those of a list and then out of the data.
abbrev pub Links : (ℕ → ℕ) → ℕ → List ℕ → Type 0
Links fat c [] = is_data_cluster c ≡ false
Links fat c (x ∷ xs) = (c ≡ x) × IsCluster x × Links fat (fat12_next_cluster fat x) xs

-- No cluster stands twice in a list.
abbrev pub Distinct : List ℕ → Type 0
Distinct [] = Unit
Distinct (x ∷ xs) = All (λ y. y ≢ x) xs × Distinct xs

pub mem : ℕ → List ℕ → Bool
mem d [] = false
mem d (x ∷ xs) = let rest = mem d xs in if d == x then true else rest

module _ (fat : ℕ → ℕ) (x : ℕ) (b : AreBytes fat) (i : IsCluster x) where
  freed_here : fat12_next_cluster (fat12_set_cluster x 0 fat) x ≡ 0
  freed_here =
      (fat12_next_cluster-fat12_set_cluster fat x (x + 1) 0 b (omega arith) (omega arith)
        (omega arith)).0

  freed_other :
      (d : ℕ)
      → IsCluster d
      → d ≢ x
      → fat12_next_cluster (fat12_set_cluster x 0 fat) d ≡ fat12_next_cluster fat d
  freed_other d j ne =
      (fat12_next_cluster-fat12_set_cluster fat x d 0 b (omega arith) (omega arith) ne).1

  Links-freed :
      (c : ℕ) (xs : List ℕ)
      → All (λ y. y ≢ x) xs
      → Links fat c xs
      → Links (fat12_set_cluster x 0 fat) c xs
  Links-freed c [] a l = l
  Links-freed c (y ∷ ys) a l = (
    l.0,
    l.1,
    subst (λ k. Links (fat12_set_cluster x 0 fat) k ys) (sym (freed_other y l.1 a.0))
        (Links-freed (fat12_next_cluster fat y) ys a.1 l.2),
  )

mem_self : (x : ℕ) (xs : List ℕ) → All (λ y. y ≢ x) xs → mem x xs ≡ false
unfolding mem
mem_self x [] a = refl
mem_self x (y ∷ ys) a = if_false (x == y) _ _ (==_ne x y (λ e. a.0 (sym e))) ∙ mem_self x ys a.1

free_chain-Links :
    (limit c : ℕ) (xs : List ℕ) (fat : ℕ → ℕ)
    → AreBytes fat
    → length xs ≤ limit
    → Distinct xs
    → Links fat c xs
    → (d : ℕ) → IsCluster d
    → fat12_next_cluster (free_chain limit c fat) d
      ≡ (if mem d xs then 0 else fat12_next_cluster fat d)
unfolding free_chain mem
free_chain-Links zero c [] fat b h q l d j = refl
free_chain-Links (suc limit) c [] fat b h q l d j =
    ap (λ f. fat12_next_cluster f d) (if_false (is_data_cluster c) _ fat l)
free_chain-Links zero c (x ∷ xs) fat b h q l d j = absurd (omega arith)
free_chain-Links (suc limit) c (x ∷ xs) fat b h q l d j =
    let fat' = fat12_set_cluster c 0 fat in
    let i : IsCluster c = subst IsCluster (sym l.0) l.1 in
    let apart : All (λ y. y ≢ c) xs = subst (λ k. All (λ y. y ≢ k) xs) (sym l.0) q.0 in
    let onward : Links fat (fat12_next_cluster fat c) xs =
      subst (λ k. Links fat (fat12_next_cluster fat k) xs) (sym l.0) l.2 in
    let ih =
      free_chain-Links limit (fat12_next_cluster fat c) xs fat'
        (fat12_set_cluster-AreBytes c 0 fat b) (omega arith) q.1
        (Links-freed fat c b i (fat12_next_cluster fat c) xs apart onward) d j in
    ap (λ f. fat12_next_cluster f d) (if_true (is_data_cluster c) _ fat (ground arith))
    ∙ (ih ∙ elim (Bool-cases (d == x)) [
      | inl e ↦
          let at : d ≡ c = (==_iff d x).0 e ∙ sym l.0 in
          ap (λ t. if t then 0 else fat12_next_cluster fat' d)
            (ap (λ k. mem k xs) at ∙ mem_self c xs apart)
          ∙ (ap (fat12_next_cluster fat') at
              ∙ (freed_here fat c b i
                  ∙ sym (if_true (if d == x then true else mem d xs) _ _ (if_true _ _ _ e))))
      | inr e ↦
          let ne : d ≢ c = λ p. cc (e, (==_iff d x).1 (p ∙ l.0)) in
          ap (λ t. if mem d xs then 0 else t) (freed_other fat c b i d j ne)
          ∙ ap (λ t. if t then 0 else fat12_next_cluster fat d) (sym (if_false _ _ _ e))
    ])

-- On a chain without a cycle of at most 4096 clusters, `fat12_free_chain` makes exactly the clusters of
-- the chain free: every other entry keeps its value.
pub fat12_free_chain-Links :
    (c : ℕ) (xs : List ℕ) (fat : ℕ → ℕ)
    → AreBytes fat
    → length xs ≤ 4096
    → Distinct xs
    → Links fat c xs
    → (d : ℕ) → IsCluster d
    → fat12_next_cluster (fat12_free_chain c fat) d
      ≡ (if mem d xs then 0 else fat12_next_cluster fat d)
unfolding fat12_free_chain
fat12_free_chain-Links c xs fat = free_chain-Links 4096 c xs fat
