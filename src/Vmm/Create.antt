-- ===== src/Vmm/Create.antt =====
-- The tables that `vmm_create_user_pt` of src/kernel/vmm.c builds, as `vmm_map_page_in` finds them.
use iron_kernel.Prelude.{
  ℕ, ◌+◌, ◌/◌, ◌%◌, ◌^◌, ◌<◌, ◌≡◌, ◌≢◌, ◌∙◌, refl, sym, ap, subst, inl, inr, Bool, true, false,
  arith, ◌==◌, ==_iff, ==_ne, ==_refl, if_true, if_split, if◌then◌else◌, update, update_same,
  update_ne,
}
use iron_kernel.Pmm.{Pmm, pmm_alloc_frame, pmm_free_frame}
use iron_kernel.Pmm.Frames.{is_used}
use iron_kernel.Pmm.Alloc.{IsPmm, Took, pmm_alloc_frame_lem}
use iron_kernel.Vmm.{
  Vmm, pml4_idx, pdpt_idx, pd_idx, phys_mask, is_present, is_huge, no_user, link, set_entry, fill,
  blank, vmm_create_user_pt, vmm_map_page_in, vmm_get_physical,
}
use iron_kernel.Vmm.Walk.{IsOwned, child, PdPath, set_entry_same, set_entry_ne}
use iron_kernel.Vmm.Mapped.{PdptPath, Pml4Path, vmm_get_physical-vmm_map_page_in}

-- A frame that the allocator gave, which was not in use before.
abbrev Given : Pmm → ℕ → Pmm → Type 0
Given m p m' =
    (p % 4096 ≡ 0)
    × (is_used m.bitmap (p / 4096) ≡ false)
    × (is_used m'.bitmap (p / 4096) ≡ true)
    × ((g : ℕ) → is_used m.bitmap g ≡ true → is_used m'.bitmap g ≡ true)
    × IsPmm m'

took-Given : (m : Pmm) (f : ℕ) (r : ℕ × Pmm) → Took m f r → Given m r.0 r.1
took-Given m f r k =
    let e = k.address in
    let at : r.0 / 4096 ≡ f = omega arith in
    (
      omega arith,
      ap (is_used m.bitmap) at ∙ k.was_free,
      ap (is_used r.1.bitmap) at
          ∙ (k.marked f ∙ if_true (f == f) true (is_used m.bitmap f) (==_refl f)),
      (λ g u.
          k.marked g
          ∙ if_split (λ (b : Bool). b ≡ true) (f == g) true (is_used m.bitmap g) (λ z. refl)
              (λ z. u)),
      k.valid,
    )

given :
    (m : Pmm)
    → IsPmm m
    → (pmm_alloc_frame m).0 ≢ 0
    → Given m (pmm_alloc_frame m).0 (pmm_alloc_frame m).1
given m v h = elim (pmm_alloc_frame_lem m v) [
  | inl (_, e) ↦ absurd (h (ap (λ (r : ℕ × Pmm). r.0) e))
  | inr (f, k) ↦ took-Given m f (pmm_alloc_frame m) k
]

-- A frame in use before differs from one that was given.
given_apart :
    (m : Pmm) (p : ℕ) (m' : Pmm) (x : ℕ) → Given m p m' → is_used m.bitmap (x / 4096) ≡ true → x ≢ p
given_apart m p m' x g u e =
    let free = g.1 in absurd (cc (u, free, ap (λ (k : ℕ). is_used m.bitmap (k / 4096)) e))

fill_same : (t : ℕ) (content : ℕ → ℕ) (s : Vmm) (j : ℕ) → (fill t content s).frames t j ≡ content j
unfolding fill
fill_same t content s j = ap (λ (f : ℕ → ℕ). f j) (update_same s.frames t content)

fill_ne :
    (t : ℕ) (content : ℕ → ℕ) (s : Vmm) (x j : ℕ)
    → x ≢ t
    → (fill t content s).frames x j ≡ s.frames x j
unfolding fill
fill_ne t content s x j h = ap (λ (f : ℕ → ℕ). f j) (update_ne s.frames t x content h)

set_entry_index :
    (t i e : ℕ) (s : Vmm) (j : ℕ) → j ≢ i → (set_entry t i e s).frames t j ≡ s.frames t j
unfolding set_entry
set_entry_index t i e s j h =
    ap (λ (f : ℕ → ℕ). f j) (update_same s.frames t (update (s.frames t) i e))
    ∙ update_ne (s.frames t) i j e h

link_facts : (p : ℕ) → p % 4096 ≡ 0 → (is_huge (link p) ≡ false) × (phys_mask (link p) ≡ p)
link_facts p h = (==_ne (link p / 128 % 2) 1 (omega arith), omega arith)

no_user_keeps :
    (e : ℕ) → (is_huge (no_user e) ≡ is_huge e) × (is_present (no_user e) ≡ is_present e)
no_user_keeps e = (ap (λ k. k == 1) (omega arith), ap (λ k. k == 1) (omega arith))

module _ (pd_table pdpt_table : ℕ → ℕ) (p4 p3 p2 : ℕ) (m1 m2 m3 : Pmm) (s : Vmm)
    (g4 : Given s.pmm p4 m1) (g3 : Given m1 p3 m2) (g2 : Given m2 p2 m3) where
  abbrev filled : Vmm
  filled =
      fill p2 (λ i. no_user (pd_table i))
        (record (fill p3 blank (record (fill p4 blank (record s { pmm = m1 })) { pmm = m2 })) {
          pmm = m3;
        })

  abbrev low : Vmm
  low = set_entry p3 0 (link p2) (set_entry p4 0 (link p3) filled)

  abbrev built : Vmm
  built = set_entry p3 3 (no_user (pdpt_table 3)) low

  n43 : p4 ≢ p3
  n43 = given_apart m1 p3 m2 p4 g3 g4.2

  n42 : p4 ≢ p2
  n42 = given_apart m2 p2 m3 p4 g2 (g3.3 (p4 / 4096) g4.2)

  n32 : p3 ≢ p2
  n32 = given_apart m2 p2 m3 p3 g2 g3.2

  pml4_entry : built.frames p4 0 ≡ link p3
  pml4_entry =
      set_entry_ne p3 3 (no_user (pdpt_table 3)) low p4 0 n43
      ∙ (set_entry_ne p3 0 (link p2) (set_entry p4 0 (link p3) filled) p4 0 n43
          ∙ set_entry_same p4 0 (link p3) filled)

  pdpt_entry : built.frames p3 0 ≡ link p2
  pdpt_entry =
      set_entry_index p3 3 (no_user (pdpt_table 3)) low 0 (omega arith)
      ∙ set_entry_same p3 0 (link p2) (set_entry p4 0 (link p3) filled)

  pd_entry : (j : ℕ) → built.frames p2 j ≡ no_user (pd_table j)
  pd_entry j =
      set_entry_ne p3 3 (no_user (pdpt_table 3)) low p2 j (λ e. n32 (sym e))
      ∙ (set_entry_ne p3 0 (link p2) (set_entry p4 0 (link p3) filled) p2 j (λ e. n32 (sym e))
          ∙ (set_entry_ne p4 0 (link p3) filled p2 j (λ e. n42 (sym e))
              ∙ fill_same p2 (λ i. no_user (pd_table i))
                  (record (fill p3 blank
                    (record (fill p4 blank (record s { pmm = m1 })) { pmm = m2 })) { pmm = m3 })
                  j))

  owned : (p : ℕ) → p % 4096 ≡ 0 → is_used m3.bitmap (p / 4096) ≡ true → IsOwned built p
  unfolding set_entry fill
  owned p a u = (a, u)

  -- The tables are ready for a page in the first GB, where the kernel has a huge page or nothing.
  built-Pml4Path :
      (virt : ℕ)
      → pml4_idx virt ≡ 0
      → pdpt_idx virt ≡ 0
      → (is_huge (pd_table (pd_idx virt)) ≡ false → is_present (pd_table (pd_idx virt)) ≡ false)
      → IsPmm built.pmm × IsOwned built p4 × Pml4Path built p4 virt
  built-Pml4Path virt z4 z3 kernel =
      let (h4, c4) = link_facts p3 g3.0 in
      let (h3, c3) = link_facts p2 g2.0 in
      let at4 : built.frames p4 (pml4_idx virt) ≡ link p3 =
        ap (λ i. built.frames p4 i) z4 ∙ pml4_entry in
      let at3 : built.frames p3 (pdpt_idx virt) ≡ link p2 =
        ap (λ i. built.frames p3 i) z3 ∙ pdpt_entry in
      let next4 : p3 ≡ child built p4 (pml4_idx virt) = sym (ap (λ e. phys_mask e) at4 ∙ c4) in
      let next3 : p2 ≡ child built p3 (pdpt_idx virt) = sym (ap (λ e. phys_mask e) at3 ∙ c3) in
      let o4 = owned p4 g4.0 (g2.3 (p4 / 4096) (g3.3 (p4 / 4096) g4.2)) in
      let o3 = owned p3 g3.0 (g2.3 (p3 / 4096) g3.2) in
      let o2 = owned p2 g2.0 g2.2 in
      let pd : PdPath built p4 p3 p2 virt = λ h p. absurd (
        let (a, b) = no_user_keeps (pd_table (pd_idx virt)) in
        let e = pd_entry (pd_idx virt) in
        let none = kernel (sym a ∙ (ap (λ k. is_huge k) (sym e) ∙ h)) in
        let some = sym b ∙ (ap (λ k. is_present k) (sym e) ∙ p) in cc (none, some)) in
      let pdpt : PdptPath built p4 p3 virt = λ p.
        let (own, apart4, apart3, path) =
          subst (λ (c : ℕ). IsOwned built c × (p4 ≢ c) × (p3 ≢ c) × PdPath built p4 p3 c virt) next3
            (o2, n42, n32, pd) in
        (ap (λ k. is_huge k) at3 ∙ h3, own, apart4, apart3, path) in
      (
        unfold set_entry fill in g2.4,
        o4,
        λ p.
            subst (λ (b : ℕ). IsOwned built b × (p4 ≢ b) × PdptPath built p4 b virt) next4
              (o3, n43, pdpt),
      )

-- The tables that `vmm_create_user_pt` returns are owned, and ready for a page in the first GB.
create-Pml4Path :
    (pd_table pdpt_table : ℕ → ℕ) (s : Vmm) (virt : ℕ)
    → IsPmm s.pmm
    → virt < 2 ^ 30
    → (is_huge (pd_table (pd_idx virt)) ≡ false → is_present (pd_table (pd_idx virt)) ≡ false)
    → let r = vmm_create_user_pt pd_table pdpt_table s in
      r.0 ≢ 0 → IsPmm r.1.pmm × IsOwned r.1 (phys_mask r.0) × Pml4Path r.1 (phys_mask r.0) virt
unfolding vmm_create_user_pt
create-Pml4Path pd_table pdpt_table s virt v low_gb kernel =
    let r4 = pmm_alloc_frame s.pmm in
    let r3 = pmm_alloc_frame r4.1 in
    let r2 = pmm_alloc_frame r3.1 in
    let s1 = fill r4.0 blank (record s { pmm = r4.1 }) in
    let s2 = fill r3.0 blank (record s1 { pmm = r3.1 }) in
    let whole = built_of r4.0 r3.0 r2.0 r4.1 r3.1 r2.1 in
    let no_pd : ℕ × Vmm = (0, record s2 { pmm = pmm_free_frame r4.0 (pmm_free_frame r3.0 r2.1) }) in
    let third : ℕ × Vmm = if r2.0 == 0 then no_pd else (r4.0, whole) in
    let no_pdpt : ℕ × Vmm = (0, record s1 { pmm = pmm_free_frame r4.0 r3.1 }) in
    let second : ℕ × Vmm = if r3.0 == 0 then no_pdpt else third in
    let no_pml4 : ℕ × Vmm = (0, record s { pmm = r4.1 }) in
    if_split Q (r4.0 == 0) no_pml4 second (λ e h. absurd (h refl))
      λ e4.
        if_split Q (r3.0 == 0) no_pdpt third (λ e h. absurd (h refl))
          λ e3.
            if_split Q (r2.0 == 0) no_pd (r4.0, whole) (λ e h. absurd (h refl))
              λ e2 h.
                let g4 = given s.pmm v (nonzero r4.0 e4) in
                let g3 = given r4.1 g4.4 (nonzero r3.0 e3) in
                let g2 = given r3.1 g3.4 (nonzero r2.0 e2) in
                let aligned : r4.0 ≡ phys_mask r4.0 = page_aligned r4.0 g4.0 in
                let (a, b, c) =
                  built-Pml4Path pd_table pdpt_table r4.0 r3.0 r2.0 r4.1 r3.1 r2.1 s g4 g3 g2 virt
                    (omega arith) (omega arith) kernel in
                subst (λ (k : ℕ). IsPmm whole.pmm × IsOwned whole k × Pml4Path whole k virt) aligned
                  (a, b, c)
  where
    Q : ℕ × Vmm → Type 0
    Q r = r.0 ≢ 0 → IsPmm r.1.pmm × IsOwned r.1 (phys_mask r.0) × Pml4Path r.1 (phys_mask r.0) virt

    nonzero : (p : ℕ) → (p == 0) ≡ false → p ≢ 0
    nonzero p e z = cc (e, (==_iff p 0).1 z)

    page_aligned : (p : ℕ) → p % 4096 ≡ 0 → p ≡ phys_mask p
    page_aligned p h = omega arith

    built_of : (p4 p3 p2 : ℕ) → (m1 m2 m3 : Pmm) → Vmm
    built_of p4 p3 p2 m1 m2 m3 = set_entry p3 3 (no_user (pdpt_table 3)) (
        set_entry p3 0 (link p2) (
          set_entry p4 0 (link p3) (
            fill p2 (λ i. no_user (pd_table i))
              (record (fill p3 blank
                (record (fill p4 blank (record s { pmm = m1 })) { pmm = m2 })) { pmm = m3 }))))

-- A new process: a page below 1 GB, where the kernel has a huge page or nothing, that is mapped
-- with success into the tables that `vmm_create_user_pt` has returned is found by the walk on
-- them, at the frame that was mapped.
pub mapped_for_process :
    (pd_table pdpt_table : ℕ → ℕ) (s : Vmm) (r : ℕ × Vmm) (virt phys flags : ℕ)
    → IsPmm s.pmm
    → virt < 2 ^ 30
    → (is_huge (pd_table (pd_idx virt)) ≡ false → is_present (pd_table (pd_idx virt)) ≡ false)
    → vmm_create_user_pt pd_table pdpt_table s ≡ r
    → r.0 ≢ 0
    → (vmm_map_page_in r.0 virt phys flags r.1).0 ≡ true
    → vmm_get_physical r.0 virt (vmm_map_page_in r.0 virt phys flags r.1).1
      ≡ phys_mask phys + virt % 4096
mapped_for_process pd_table pdpt_table s r virt phys flags v low_gb kernel made new ok =
    let (a, b, c) =
      subst
        (λ (r : ℕ × Vmm).
          r.0 ≢ 0 → IsPmm r.1.pmm × IsOwned r.1 (phys_mask r.0) × Pml4Path r.1 (phys_mask r.0) virt)
        made (create-Pml4Path pd_table pdpt_table s virt v low_gb kernel) new in
    vmm_get_physical-vmm_map_page_in r.0 virt phys flags r.1 a b c ok
