-- ===== src/Vmm/MapPage.antt =====
-- `vmm_map_page` of src/kernel/vmm.c against `vmm_map_page_in`.
use iron_kernel.Prelude.{
  ℕ, ◌≡◌, ◌∙◌, refl, sym, ap, subst, ◌⊎◌, inl, inr, Bool, true, false, not, Bool-cases, if_true,
  if_false, if◌then◌else◌,
}
use iron_kernel.Pmm.Alloc.{IsPmm}
use iron_kernel.Vmm.{
  Vmm, pml4_idx, pdpt_idx, pd_idx, pt_idx, phys_mask, is_present, is_huge, leaf, split, blank,
  set_entry, attach, ensure, ensure_pt, map_in_pd, map_in_pdpt, vmm_map_page_in,
}
use iron_kernel.Vmm.Clone.{ensure_split, map_pd, map_pdpt, vmm_map_page}
use iron_kernel.Vmm.Walk.{IsOwned, Linked, Fresh, child, ensure_lem}

-- A huge entry is present.
abbrev HugePresent : Vmm → (t i : ℕ) → Type 0
HugePresent s t i = is_huge (s.frames t i) ≡ true → is_present (s.frames t i) ≡ true

ensure_split-ensure_pt :
    (t i : ℕ) (s : Vmm)
    → IsPmm s.pmm
    → IsOwned s t
    → HugePresent s t i
    → ensure_split t i s ≡ ensure_pt t i s
unfolding ensure_split ensure_pt
ensure_split-ensure_pt t i s v o hp = elim (Bool-cases (is_present (s.frames t i))) [
  | inl p ↦
      let e : ensure t i s ≡ (true, s) = unfold ensure in if_true _ _ _ p in
      ap next e
      ∙ ap
          (λ (r : Bool × Vmm).
            if is_huge (s.frames t i) then attach t i (split (s.frames t i)) s else r)
          (sym e)
  | inr p ↦
      let small : is_huge (s.frames t i) ≡ false = not_huge (is_huge (s.frames t i)) p hp in
      made (ensure t i s) refl p ∙ sym (if_false _ _ _ small)
]
  where
    next : Bool × Vmm → Bool × Vmm
    next r =
        if not r.0
        then (false, r.1)
        else if is_huge (r.1.frames t i)
        then attach t i (split (r.1.frames t i)) r.1
        else (true, r.1)

    not_huge :
        (b : Bool)
        → is_present (s.frames t i) ≡ false
        → (b ≡ true → is_present (s.frames t i) ≡ true)
        → b ≡ false
    not_huge true p h = absurd (cc (p, h refl))
    not_huge false p h = refl

    made : (r : Bool × Vmm) → ensure t i s ≡ r → is_present (s.frames t i) ≡ false → next r ≡ r
    made (false, s1) e p = refl
    made (true, s1) e p =
        let ok : (ensure t i s).0 ≡ true = ap (λ (r : Bool × Vmm). r.0) e in
        let (l, new) = ensure_lem t i s v o (λ q. absurd (cc (p, q))) ok in
        let same : (ensure t i s).1 ≡ s1 = ap (λ (r : Bool × Vmm). r.1) e in
        if_false _ _ _
          (subst (λ (z : Vmm). is_huge (z.frames t i) ≡ false) same (fresh_small l new))
      where
        fresh_small :
            {z : Vmm}
            → Linked t i s z
            → (z ≡ s) ⊎ Fresh t i blank s z
            → is_huge (z.frames t i) ≡ false
        fresh_small l (inl q) =
            absurd (cc (p, ap (λ (z : Vmm). is_present (z.frames t i)) (sym q) ∙ l.present))
        fresh_small l (inr f) = f.small

map_pd-map_in_pd :
    (pd virt phys flags : ℕ) (s : Vmm)
    → ensure_split pd (pd_idx virt) s ≡ ensure_pt pd (pd_idx virt) s
    → map_pd pd virt phys flags s ≡ map_in_pd pd virt phys flags s
unfolding map_pd map_in_pd
map_pd-map_in_pd pd virt phys flags s e =
    ap
      (λ (r : Bool × Vmm).
        if r.0
        then (
          true,
          set_entry (phys_mask (r.1.frames pd (pd_idx virt))) (pt_idx virt) (leaf phys flags) r.1,
        )
        else (false, r.1))
      e

-- What a page directory pointer table may hold at the entry of an address: nothing, or an owned page
-- directory whose entry is present when it is huge.
abbrev PdptFit : Vmm → (b virt : ℕ) → Type 0
PdptFit s b virt =
    is_present (s.frames b (pdpt_idx virt)) ≡ true
    → IsOwned s (child s b (pdpt_idx virt))
      × HugePresent s (child s b (pdpt_idx virt)) (pd_idx virt)

abbrev pub Pml4Fit : Vmm → (a virt : ℕ) → Type 0
Pml4Fit s a virt =
    is_present (s.frames a (pml4_idx virt)) ≡ true
    → IsOwned s (child s a (pml4_idx virt)) × PdptFit s (child s a (pml4_idx virt)) virt

zero_bits : (e : ℕ) → e ≡ 0 → (is_present e ≡ false) × (is_huge e ≡ false)
zero_bits e z = (ap (λ k. is_present k) z, ap (λ k. is_huge k) z)

fit_below :
    (t i : ℕ) (s s' : Vmm) (Fit : Vmm → ℕ → Type 0)
    → Linked t i s s'
    → (s' ≡ s) ⊎ Fresh t i blank s s'
    → (is_present (s.frames t i) ≡ true → Fit s (child s t i))
    → (((j : ℕ) → s'.frames (child s' t i) j ≡ 0) → Fit s' (child s' t i))
    → Fit s' (child s' t i)
fit_below t i s s' Fit l (inl e) old new =
    subst (λ (z : Vmm). Fit z (child z t i)) (sym e)
      (old (ap (λ (z : Vmm). is_present (z.frames t i)) (sym e) ∙ l.present))
fit_below t i s s' Fit l (inr f) old new = new f.holds

map_pdpt-map_in_pdpt :
    (b virt phys flags : ℕ) (s : Vmm)
    → IsPmm s.pmm
    → IsOwned s b
    → PdptFit s b virt
    → map_pdpt b virt phys flags s ≡ map_in_pdpt b virt phys flags s
unfolding map_pdpt map_in_pdpt
map_pdpt-map_in_pdpt b virt phys flags s v o fit =
    elim (Bool-cases (ensure b (pdpt_idx virt) s).0) [
      | inl ok ↦
          let r = ensure b (pdpt_idx virt) s in
          let c = child r.1 b (pdpt_idx virt) in
          let (l, new) = ensure_lem b (pdpt_idx virt) s v o (λ p. (fit p).0) ok in
          let hp =
            fit_below b (pdpt_idx virt) s r.1 (λ z c. HugePresent z c (pd_idx virt)) l new
              (λ p. (fit p).1)
              λ z h. absurd (let (p, g) = zero_bits _ (z (pd_idx virt)) in cc (g, h)) in
          let same =
            map_pd-map_in_pd c virt phys flags r.1
              (ensure_split-ensure_pt c (pd_idx virt) r.1 l.valid l.next hp) in
          ap
            (λ (below : Bool × Vmm).
              if not r.0
              then (false, r.1)
              else if is_huge (r.1.frames b (pdpt_idx virt))
              then (true, r.1)
              else below)
            same
      | inr out ↦ if_true _ _ _ (ap not out) ∙ sym (if_true _ _ _ (ap not out))
    ]

-- `vmm_map_page` does the same as `vmm_map_page_in` on the same tables, whether it succeeds or runs out
-- of frames, and whether or not a 2 MB page covers the address, which is split: on owned tables whose
-- huge entries are present.
pub vmm_map_page-vmm_map_page_in :
    (cr3 virt phys flags : ℕ) (s : Vmm)
    → IsPmm s.pmm
    → IsOwned s (phys_mask cr3)
    → Pml4Fit s (phys_mask cr3) virt
    → vmm_map_page cr3 virt phys flags s ≡ vmm_map_page_in cr3 virt phys flags s
unfolding vmm_map_page vmm_map_page_in
vmm_map_page-vmm_map_page_in cr3 virt phys flags s v o fit =
    let a = phys_mask cr3 in
    elim (Bool-cases (ensure a (pml4_idx virt) s).0) [
      | inl ok ↦
          let r = ensure a (pml4_idx virt) s in
          let (l, new) = ensure_lem a (pml4_idx virt) s v o (λ p. (fit p).0) ok in
          let below =
            fit_below a (pml4_idx virt) s r.1 (λ z b. PdptFit z b virt) l new (λ p. (fit p).1)
              λ z p. absurd (let (q, g) = zero_bits _ (z (pdpt_idx virt)) in cc (q, p)) in
          let same =
            map_pdpt-map_in_pdpt (child r.1 a (pml4_idx virt)) virt phys flags r.1 l.valid l.next
              below in
          ap (λ (below : Bool × Vmm). if r.0 then below else (false, r.1)) same
      | inr out ↦ if_false _ _ _ out ∙ sym (if_false _ _ _ out)
    ]
