-- ===== src/Vmm/Mapped.antt =====
-- `vmm_map_page_in` and the walk of `vmm_get_physical` in src/kernel/vmm.c.
use iron_kernel.Prelude.{
  ℕ, ◌+◌, ◌%◌, ◌≡◌, ◌≢◌, ◌∙◌, refl, sym, ap, subst, ◌⊎◌, inl, inr, Bool, true, false, not, arith,
  ==_iff, if_false, if_split, if◌then◌else◌,
}
use iron_kernel.Pmm.Alloc.{IsPmm}
use iron_kernel.Vmm.{
  Vmm, pml4_idx, pdpt_idx, pd_idx, phys_mask, is_present, is_huge, leaf, blank, ensure, map_in_pd,
  map_in_pdpt, vmm_map_page_in, vmm_get_physical,
}
use iron_kernel.Vmm.Walk.{
  IsOwned, Linked, Fresh, child, ensure_lem, FromPd, FromPdpt, PdPath, pd_stage,
}

-- What a page directory pointer table may hold at the entry of an address: nothing, or an owned page
-- directory that is not one of the tables above it.
abbrev pub PdptPath : Vmm → (a b virt : ℕ) → Type 0
PdptPath s a b virt =
    is_present (s.frames b (pdpt_idx virt)) ≡ true
    → let c = child s b (pdpt_idx virt) in
      (is_huge (s.frames b (pdpt_idx virt)) ≡ false)
      × IsOwned s c
      × (a ≢ c)
      × (b ≢ c)
      × PdPath s a b c virt

-- The same of a PML4.
abbrev pub Pml4Path : Vmm → (a virt : ℕ) → Type 0
Pml4Path s a virt =
    is_present (s.frames a (pml4_idx virt)) ≡ true
    → let b = child s a (pml4_idx virt) in IsOwned s b × (a ≢ b) × PdptPath s a b virt

-- An entry of a new table is not present.
not_blank : {A : Type 0} (e : ℕ) → e ≡ 0 → is_present e ≡ true → A
not_blank e z p = absurd (let y : e % 2 ≡ 1 = (==_iff (e % 2) 1).0 p in omega arith)

module _ (a b virt : ℕ) (s : Vmm) where
  -- After the table below entry of `b` was made.
  abbrev PdptReady : Vmm → Type 0
  PdptReady z =
      let c = child z b (pdpt_idx virt) in
      (is_huge (z.frames b (pdpt_idx virt)) ≡ false) × (a ≢ c) × (b ≢ c) × PdPath z a b c virt

  pdpt_ready :
      (s' : Vmm)
      → IsOwned s a
      → IsOwned s b
      → PdptPath s a b virt
      → Linked b (pdpt_idx virt) s s'
      → (s' ≡ s) ⊎ Fresh b (pdpt_idx virt) blank s s'
      → PdptReady s'
  pdpt_ready s' oa ob path l (inl e) =
      let p =
        path (ap (λ (z : Vmm). is_present (z.frames b (pdpt_idx virt))) (sym e) ∙ l.present) in
      subst PdptReady (sym e) (p.0, p.2, p.3, p.4)
  pdpt_ready s' oa ob path l (inr f) = (
    f.small,
    (λ e. f.apart a oa (sym e)),
    (λ e. f.apart b ob (sym e)),
    λ h p. not_blank _ (f.holds (pd_idx virt)) p,
  )

pdpt_stage :
    (a b virt phys flags : ℕ) (s : Vmm)
    → IsPmm s.pmm
    → IsOwned s a
    → IsOwned s b
    → a ≢ b
    → PdptPath s a b virt
    → (map_in_pdpt b virt phys flags s).0 ≡ true
    → let s' = (map_in_pdpt b virt phys flags s).1 in
      FromPdpt s' b virt (leaf phys flags) × ((j : ℕ) → s'.frames a j ≡ s.frames a j)
unfolding map_in_pdpt
pdpt_stage a b virt phys flags s v oa ob ab path =
    let r = ensure b (pdpt_idx virt) s in
    let c = child r.1 b (pdpt_idx virt) in
    let below = map_in_pd c virt phys flags r.1 in
    let there = if is_huge (r.1.frames b (pdpt_idx virt)) then (true, r.1) else below in
    if_split Q (not r.0) (false, r.1) there (λ z no. absurd (cc no))
      λ z.
        let (l, new) = ensure_lem b (pdpt_idx virt) s v ob (λ p. (path p).1) (on r.0 z) in
        let (h, ac, bc, down) = pdpt_ready a b virt s r.1 oa ob path l new in
        if_split Q (is_huge (r.1.frames b (pdpt_idx virt))) (true, r.1) below
          (λ y. absurd (cc (y, h)))
          λ y ok.
            let (walk, sa, sb) =
              pd_stage a b c virt phys flags r.1 l.valid (l.owned a oa) (l.owned b ob) l.next ac bc
                down ok in
            let e3 = sb (pdpt_idx virt) in
            (
              (
                ap (λ z. is_present z) e3 ∙ l.present,
                ap (λ z. is_huge z) e3 ∙ h,
                subst (λ k. FromPd below.1 (phys_mask k) virt (leaf phys flags)) (sym e3) walk,
              ),
              λ j. sa j ∙ l.keeps a ab oa j,
            )
  where
    Q : Bool × Vmm → Type 0
    Q r =
        r.0 ≡ true
        → FromPdpt r.1 b virt (leaf phys flags) × ((j : ℕ) → r.1.frames a j ≡ s.frames a j)

    on : (b : Bool) → not b ≡ false → b ≡ true
    on true e = refl
    on false e = cc e

-- The walk finds what the entries say.
get_physical_walk :
    (cr3 virt e : ℕ) (s : Vmm)
    → is_present (s.frames (phys_mask cr3) (pml4_idx virt)) ≡ true
    → FromPdpt s (child s (phys_mask cr3) (pml4_idx virt)) virt e
    → is_present e ≡ true
    → vmm_get_physical cr3 virt s ≡ phys_mask e + virt % 4096
unfolding vmm_get_physical
get_physical_walk cr3 virt e s p4 (p3, h3, (p2, h2, e1)) p1 =
    if_false _ _ _ (ap not p4)
    ∙ (if_false _ _ _ (ap not p3)
        ∙ (if_false _ _ _ h3
            ∙ (if_false _ _ _ (ap not p2)
                ∙ (if_false _ _ _ h2
                    ∙ (if_false _ _ _ (ap not (ap (λ k. is_present k) e1 ∙ p1))
                        ∙ ap (λ k. phys_mask k + virt % 4096) e1)))))

-- When `vmm_map_page_in` reports success, the walk gives for the address the frame that was
-- mapped and the offset in the page: on tables that the allocator holds for used and of which none is its
-- own child or a child of its children, where no page of 1 GB covers the address. A
-- page of 2 MB may cover it.
pub vmm_get_physical-vmm_map_page_in :
    (cr3 virt phys flags : ℕ) (s : Vmm)
    → IsPmm s.pmm
    → IsOwned s (phys_mask cr3)
    → Pml4Path s (phys_mask cr3) virt
    → (vmm_map_page_in cr3 virt phys flags s).0 ≡ true
    → vmm_get_physical cr3 virt (vmm_map_page_in cr3 virt phys flags s).1
      ≡ phys_mask phys + virt % 4096
unfolding vmm_map_page_in
vmm_get_physical-vmm_map_page_in cr3 virt phys flags s v oa path =
    let a = phys_mask cr3 in
    let r = ensure a (pml4_idx virt) s in
    let below = map_in_pdpt (child r.1 a (pml4_idx virt)) virt phys flags r.1 in
    if_split Q r.0 below (false, r.1)
      (λ ok done.
        let (l, new) = ensure_lem a (pml4_idx virt) s v oa (λ p. (path p).0) ok in
        let (ab, down) = pml4_ready r.1 l new in
        let (walk, sa) =
          pdpt_stage a (child r.1 a (pml4_idx virt)) virt phys flags r.1 l.valid (l.owned a oa)
            l.next ab down done in
        let e4 = sa (pml4_idx virt) in
        get_physical_walk cr3 virt (leaf phys flags) below.1 (ap (λ k. is_present k) e4 ∙ l.present)
          (subst (λ k. FromPdpt below.1 (phys_mask k) virt (leaf phys flags)) (sym e4) walk)
          ((==_iff (leaf phys flags % 2) 1).1 (omega arith))
        ∙ omega arith)
      λ no e. absurd (cc e)
  where
    Q : Bool × Vmm → Type 0
    Q r = r.0 ≡ true → vmm_get_physical cr3 virt r.1 ≡ phys_mask phys + virt % 4096

    Ready : Vmm → Type 0
    Ready z =
        let b = child z (phys_mask cr3) (pml4_idx virt) in
        (phys_mask cr3 ≢ b) × PdptPath z (phys_mask cr3) b virt

    pml4_ready :
        (s' : Vmm)
        → Linked (phys_mask cr3) (pml4_idx virt) s s'
        → (s' ≡ s) ⊎ Fresh (phys_mask cr3) (pml4_idx virt) blank s s'
        → Ready s'
    pml4_ready s' l (inl e) =
        let p = path (
          ap (λ (z : Vmm). is_present (z.frames (phys_mask cr3) (pml4_idx virt))) (sym e)
          ∙ l.present) in
        subst Ready (sym e) (p.1, p.2)
    pml4_ready s' l (inr f) =
        ((λ e. f.apart (phys_mask cr3) oa (sym e)), λ p. not_blank _ (f.holds (pdpt_idx virt)) p)
