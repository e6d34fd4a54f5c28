-- ===== src/Vmm/Walk.antt =====
-- The walk of src/kernel/vmm.c over what `vmm_map_page_in` has written.
use iron_kernel.Prelude.{
  ℕ, ◌*◌, ◌/◌, ◌%◌, ◌≡◌, ◌≢◌, ◌∙◌, refl, sym, ap, subst, ◌⊎◌, inl, inr, Bool, true, false, arith,
  ◌==◌, ==_iff, ==_ne, if_true, if_split, if◌then◌else◌, update, update_same, update_ne,
}
use iron_kernel.Pmm.{Pmm, pmm_alloc_frame}
use iron_kernel.Pmm.Frames.{is_used}
use iron_kernel.Pmm.Alloc.{IsPmm, Took, pmm_alloc_frame_lem}
use iron_kernel.Vmm.{
  Vmm, pdpt_idx, pd_idx, pt_idx, phys_mask, is_present, is_huge, link, leaf, set_entry, fill, blank,
  attach, ensure, split, place, ensure_pt, map_in_pd,
}

-- An address of a frame that the allocator holds for used.
abbrev pub IsOwned : Vmm → ℕ → Type 0
IsOwned s x = (x % 4096 ≡ 0) × (is_used s.pmm.bitmap (x / 4096) ≡ true)

-- What making the table below entry `i` of `t` leaves, if it was made: the entry leads to an owned frame,
-- other owned frames are as they were, and the frame is either the one that was there or a new one.
pub record Linked (t i : ℕ) (s s' : Vmm) : Type 0 where
  pub keeps : (x : ℕ) → x ≢ t → IsOwned s x → (j : ℕ) → s'.frames x j ≡ s.frames x j
  pub owned : (x : ℕ) → IsOwned s x → IsOwned s' x
  pub present : is_present (s'.frames t i) ≡ true
  pub next : IsOwned s' (phys_mask (s'.frames t i))
  pub valid : IsPmm s'.pmm

-- The new frame holds the content, differs from every owned one, and its entry is not huge.
pub record Fresh (t i : ℕ) (content : ℕ → ℕ) (s s' : Vmm) : Type 0 where
  pub holds : (j : ℕ) → s'.frames (phys_mask (s'.frames t i)) j ≡ content j
  pub apart : (x : ℕ) → IsOwned s x → phys_mask (s'.frames t i) ≢ x
  pub small : is_huge (s'.frames t i) ≡ false

pub link_lem :
    (f : ℕ)
    → (is_present (link (f * 4096)) ≡ true)
      × (is_huge (link (f * 4096)) ≡ false)
      × (phys_mask (link (f * 4096)) ≡ f * 4096)
link_lem f = ((==_iff _ _).1 (omega arith), ==_ne _ _ (omega arith), omega arith)

module _ (f : ℕ) (pmm : Pmm) (t i : ℕ) (content : ℕ → ℕ) (s : Vmm)
    (k : Took s.pmm f (f * 4096, pmm)) (o : IsOwned s t) where
  abbrev filled : ℕ → ℕ → ℕ
  filled = update s.frames (f * 4096) content

  frame_apart : (x : ℕ) → IsOwned s x → f * 4096 ≢ x
  frame_apart x (a, u) e =
      let g : x / 4096 ≡ f = omega arith in
      let free = k.was_free in absurd (cc (u, ap (is_used s.pmm.bitmap) g, free))

  entry : (place (f * 4096) pmm t i content s).frames t i ≡ link (f * 4096)
  unfolding place set_entry fill
  entry =
      ap (λ (e : ℕ → ℕ). e i) (update_same filled t (update (filled t) i (link (f * 4096))))
      ∙ update_same (filled t) i (link (f * 4096))

  other_frames :
      (x : ℕ)
      → x ≢ t
      → x ≢ f * 4096
      → (j : ℕ) → (place (f * 4096) pmm t i content s).frames x j ≡ s.frames x j
  unfolding place set_entry fill
  other_frames x h g j =
      ap (λ (e : ℕ → ℕ). e j)
        (update_ne filled t x (update (filled t) i (link (f * 4096))) h
          ∙ update_ne s.frames (f * 4096) x content g)

  new_frame : (j : ℕ) → (place (f * 4096) pmm t i content s).frames (f * 4096) j ≡ content j
  unfolding place set_entry fill
  new_frame j =
      ap (λ (e : ℕ → ℕ). e j)
        (update_ne filled t (f * 4096) (update (filled t) i (link (f * 4096))) (frame_apart t o)
          ∙ update_same s.frames (f * 4096) content)

  marked_owned : (x : ℕ) → IsOwned s x → is_used pmm.bitmap (x / 4096) ≡ true
  marked_owned x (a, u) =
      k.marked (x / 4096)
      ∙ if_split (λ (b : Bool). b ≡ true) (f == x / 4096) true (is_used s.pmm.bitmap (x / 4096))
          (λ z. refl) (λ z. u)

  marked_new : is_used pmm.bitmap (f * 4096 / 4096) ≡ true
  marked_new =
      k.marked (f * 4096 / 4096)
      ∙ if_true (f == f * 4096 / 4096) true (is_used s.pmm.bitmap (f * 4096 / 4096))
          ((==_iff f (f * 4096 / 4096)).1 (omega arith))

  place_lem :
      Linked t i s (place (f * 4096) pmm t i content s)
      × Fresh t i content s (place (f * 4096) pmm t i content s)
  place_lem =
      let s' = place (f * 4096) pmm t i content s in
      let (p, h, m) = link_lem f in
      let next : phys_mask (s'.frames t i) ≡ f * 4096 = ap (λ e. phys_mask e) entry ∙ m in
      (
        record {
          keeps = λ x h o. other_frames x h (λ e. frame_apart x o (sym e));
          owned = λ x o. (o.0, unfold place set_entry fill in marked_owned x o);
          present = ap (λ e. is_present e) entry ∙ p;
          next =
              subst (IsOwned s') (sym next)
                (omega arith, unfold place set_entry fill in marked_new);
          valid = unfold place set_entry fill in k.valid;
        },
        record {
          holds = λ j. ap (λ x. s'.frames x j) next ∙ new_frame j;
          apart = λ x o e. frame_apart x o (sym next ∙ e);
          small = ap (λ e. is_huge e) entry ∙ h;
        },
      )

attach_lem :
    (t i : ℕ) (content : ℕ → ℕ) (s : Vmm)
    → IsPmm s.pmm
    → IsOwned s t
    → (attach t i content s).0 ≡ true
    → Linked t i s (attach t i content s).1 × Fresh t i content s (attach t i content s).1
unfolding attach
attach_lem t i content s v o = elim (pmm_alloc_frame_lem s.pmm v) [
  | inl (_, e) ↦ nothing_left (pmm_alloc_frame s.pmm) (ap (λ (r : ℕ × Pmm). r.0) e)
  | inr (f, k) ↦ given (pmm_alloc_frame s.pmm).0 (pmm_alloc_frame s.pmm).1 f k
]
  where
    Done : ℕ × Pmm → Type 0
    Done r =
        let a : Bool × Vmm =
          if r.0 == 0
          then (false, record s { pmm = r.1 })
          else (true, place r.0 r.1 t i content s) in
        a.0 ≡ true → Linked t i s a.1 × Fresh t i content s a.1

    Q : Bool × Vmm → Type 0
    Q a = a.0 ≡ true → Linked t i s a.1 × Fresh t i content s a.1

    nothing_left : (r : ℕ × Pmm) → r.0 ≡ 0 → Done r
    nothing_left r z =
        if_split Q (r.0 == 0) (false, record s { pmm = r.1 }) (true, place r.0 r.1 t i content s)
          (λ e ok. absurd (cc ok)) λ e. absurd (cc (e, (==_iff r.0 0).1 z))

    given : (p : ℕ) (pmm : Pmm) (f : ℕ) → Took s.pmm f (p, pmm) → Done (p, pmm)
    given p pmm f k =
        if_split Q (p == 0) (false, record s { pmm = pmm }) (true, place p pmm t i content s)
          (λ e ok. absurd (cc ok))
          λ e ok.
            subst
              (λ (q : ℕ).
                Took s.pmm f (q, pmm)
                → Linked t i s (place q pmm t i content s)
                  × Fresh t i content s (place q pmm t i content s))
              (sym k.address) (λ k. place_lem f pmm t i content s k o) k

-- The table that entry `i` of `t` leads to.
abbrev pub child : Vmm → (t i : ℕ) → ℕ
child s t i = phys_mask (s.frames t i)

pub ensure_lem :
    (t i : ℕ) (s : Vmm)
    → IsPmm s.pmm
    → IsOwned s t
    → (is_present (s.frames t i) ≡ true → IsOwned s (phys_mask (s.frames t i)))
    → (ensure t i s).0 ≡ true
    → Linked t i s (ensure t i s).1 × (((ensure t i s).1 ≡ s) ⊎ Fresh t i blank s (ensure t i s).1)
unfolding ensure
ensure_lem t i s v o old =
    if_split Q (is_present (s.frames t i)) (true, s) (attach t i blank s)
      (λ e ok. (
        record { keeps = λ x h o j. refl; owned = λ x o. o; present = e; next = old e; valid = v },
        inl refl,
      ))
      λ e ok. let (a, b) = attach_lem t i blank s v o ok in (a, inr b)
  where
    Q : Bool × Vmm → Type 0
    Q a = a.0 ≡ true → Linked t i s a.1 × ((a.1 ≡ s) ⊎ Fresh t i blank s a.1)

ensure_pt_lem :
    (t i : ℕ) (s : Vmm)
    → IsPmm s.pmm
    → IsOwned s t
    → (is_huge (s.frames t i) ≡ false → is_present (s.frames t i) ≡ true → IsOwned s (child s t i))
    → (ensure_pt t i s).0 ≡ true
    → Linked t i s (ensure_pt t i s).1
      × (is_huge ((ensure_pt t i s).1.frames t i) ≡ false)
      × ((x : ℕ)
          → IsOwned s x
          → (is_huge (s.frames t i) ≡ false → is_present (s.frames t i) ≡ true → child s t i ≢ x)
          → child (ensure_pt t i s).1 t i ≢ x)
unfolding ensure_pt
ensure_pt_lem t i s v o old =
    if_split Q (is_huge (s.frames t i)) (attach t i (split (s.frames t i)) s) (ensure t i s)
      (λ h ok.
        let (a, b) = attach_lem t i (split (s.frames t i)) s v o ok in
        (a, b.small, λ x ox away. b.apart x ox))
      λ h ok. let (a, c) = ensure_lem t i s v o (old h) ok in by_case h a c
  where
    Q : Bool × Vmm → Type 0
    Q r =
        r.0 ≡ true
        → Linked t i s r.1
          × (is_huge (r.1.frames t i) ≡ false)
          × ((x : ℕ)
              → IsOwned s x
              → (is_huge (s.frames t i) ≡ false
                  → is_present (s.frames t i) ≡ true
                  → child s t i ≢ x)
              → child r.1 t i ≢ x)

    by_case :
        {s' : Vmm}
        → is_huge (s.frames t i) ≡ false
        → Linked t i s s'
        → (s' ≡ s) ⊎ Fresh t i blank s s'
        → Linked t i s s'
          × (is_huge (s'.frames t i) ≡ false)
          × ((x : ℕ)
              → IsOwned s x
              → (is_huge (s.frames t i) ≡ false
                  → is_present (s.frames t i) ≡ true
                  → child s t i ≢ x)
              → child s' t i ≢ x)
    by_case h a (inl e) =
        let same = ap (λ (z : Vmm). z.frames t i) e in
        (
          a,
          ap (λ z. is_huge z) same ∙ h,
          λ x ox away g.
              away h (ap (λ z. is_present z) (sym same) ∙ a.present)
                (ap (λ z. phys_mask z) (sym same) ∙ g),
        )
    by_case h a (inr b) = (a, b.small, λ x ox away. b.apart x ox)

-- The walk from a page directory, a page directory pointer table and a PML4 to the entry of a page.
abbrev pub FromPd : Vmm → (pd virt e : ℕ) → Type 0
FromPd s pd virt e =
    (is_present (s.frames pd (pd_idx virt)) ≡ true)
    × (is_huge (s.frames pd (pd_idx virt)) ≡ false)
    × (s.frames (child s pd (pd_idx virt)) (pt_idx virt) ≡ e)

abbrev pub FromPdpt : Vmm → (pdpt virt e : ℕ) → Type 0
FromPdpt s pdpt virt e =
    (is_present (s.frames pdpt (pdpt_idx virt)) ≡ true)
    × (is_huge (s.frames pdpt (pdpt_idx virt)) ≡ false)
    × FromPd s (child s pdpt (pdpt_idx virt)) virt e

-- What a page directory may hold at the entry of an address: a huge page, nothing, or an owned page
-- table that is not one of the tables above it.
abbrev pub PdPath : Vmm → (a b c virt : ℕ) → Type 0
PdPath s a b c virt =
    is_huge (s.frames c (pd_idx virt)) ≡ false
    → is_present (s.frames c (pd_idx virt)) ≡ true
    → let d = child s c (pd_idx virt) in IsOwned s d × (d ≢ a) × (d ≢ b) × (d ≢ c)

pub set_entry_same : (t i e : ℕ) (s : Vmm) → (set_entry t i e s).frames t i ≡ e
unfolding set_entry
set_entry_same t i e s =
    ap (λ (f : ℕ → ℕ). f i) (update_same s.frames t (update (s.frames t) i e))
    ∙ update_same (s.frames t) i e

pub set_entry_ne :
    (t i e : ℕ) (s : Vmm) (x j : ℕ) → x ≢ t → (set_entry t i e s).frames x j ≡ s.frames x j
unfolding set_entry
set_entry_ne t i e s x j h =
    ap (λ (f : ℕ → ℕ). f j) (update_ne s.frames t x (update (s.frames t) i e) h)

-- In the page directory `c` the page is mapped afterwards, and the tables `a` and `b` above are as
-- they were.
pub pd_stage :
    (a b c virt phys flags : ℕ) (s : Vmm)
    → IsPmm s.pmm
    → IsOwned s a
    → IsOwned s b
    → IsOwned s c
    → a ≢ c
    → b ≢ c
    → PdPath s a b c virt
    → (map_in_pd c virt phys flags s).0 ≡ true
    → let s' = (map_in_pd c virt phys flags s).1 in
      FromPd s' c virt (leaf phys flags)
      × ((j : ℕ) → s'.frames a j ≡ s.frames a j)
      × ((j : ℕ) → s'.frames b j ≡ s.frames b j)
unfolding map_in_pd
pd_stage a b c virt phys flags s v oa ob oc ac bc path =
    let r = ensure_pt c (pd_idx virt) s in
    let d = child r.1 c (pd_idx virt) in
    let s' = set_entry d (pt_idx virt) (leaf phys flags) r.1 in
    if_split Q r.0 (true, s') (false, r.1)
      (λ ok e.
        let (l, h, away) = ensure_pt_lem c (pd_idx virt) s v oc (λ h p. (path h p).0) ok in
        let dc : c ≢ d = λ z. away c oc (λ h p. (path h p).3) (sym z) in
        let da : a ≢ d = λ z. away a oa (λ h p. (path h p).1) (sym z) in
        let db : b ≢ d = λ z. away b ob (λ h p. (path h p).2) (sym z) in
        let e2 : s'.frames c (pd_idx virt) ≡ r.1.frames c (pd_idx virt) =
          set_entry_ne d (pt_idx virt) (leaf phys flags) r.1 c (pd_idx virt) dc in
        (
          (
            ap (λ z. is_present z) e2 ∙ l.present,
            ap (λ z. is_huge z) e2 ∙ h,
            ap (λ z. s'.frames (phys_mask z) (pt_idx virt)) e2
                ∙ set_entry_same d (pt_idx virt) (leaf phys flags) r.1,
          ),
          λ j. set_entry_ne d (pt_idx virt) (leaf phys flags) r.1 a j da ∙ l.keeps a ac oa j,
          λ j. set_entry_ne d (pt_idx virt) (leaf phys flags) r.1 b j db ∙ l.keeps b bc ob j,
        ))
      λ no e. absurd (cc e)
  where
    Q : Bool × Vmm → Type 0
    Q r =
        r.0 ≡ true
        → FromPd r.1 c virt (leaf phys flags)
          × ((j : ℕ) → r.1.frames a j ≡ s.frames a j)
          × ((j : ℕ) → r.1.frames b j ≡ s.frames b j)
