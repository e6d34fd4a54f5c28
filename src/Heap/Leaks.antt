-- ===== src/Heap/Leaks.antt =====
-- The table of live allocations in src/kernel/heap.c, as a bag of pointers.
use iron_kernel.Prelude.{
  ℕ, zero, suc, ◌+◌, ◌-◌, ◌≤◌, ◌<◌, ◌≡◌, refl, sym, ap, ◌⊎◌, inl, inr, arith, leb, ◌==◌, ==_iff,
  leb→le, Bool-cases, if◌then◌else◌, update, update_same, update_ne,
}
use native.Mathlib.Decide.{dec_lt, ℕ_discrete}
use iron_kernel.Heap.{Heap, Leak, heap_leak_cap, leak_add, leak_del, leak_del_loop}

-- 1 where the entry is for the pointer, 0 elsewhere
abbrev pub is_for : Leak → ℕ → ℕ
is_for l q = if l.ptr == q then 1 else 0

-- how many of the first `n` entries are for the pointer
abbrev pub entries : ℕ → (ℕ → Leak) → ℕ → ℕ
entries zero l q = 0
entries (suc n) l q = entries n l q + is_for (l n) q

-- how often the pointer is recorded as live
abbrev pub live : Heap → ℕ → ℕ
live h q = entries h.leak_count h.leaks q

module _ (l : ℕ → Leak) (i : ℕ) (v : Leak) (q : ℕ) where
  entries-update_above : (n : ℕ) → n ≤ i → entries n (update l i v) q ≡ entries n l q
  entries-update_above zero h = refl
  entries-update_above (suc n) h =
      rw (entries-update_above n (omega arith), update_ne l i n v λ e. absurd (omega (arith, e)))

  entries-update :
      (n : ℕ) → i < n → entries n (update l i v) q + is_for (l i) q ≡ entries n l q + is_for v q
  entries-update zero h = absurd (omega arith)
  entries-update (suc n) h = elim (ℕ_discrete i n) [
    | yes e ↦ rw (← e, entries-update_above i (omega arith), update_same l i v) (omega arith)
    | no ne ↦
        rw (update_ne l i n v λ e. ne (sym e)) (omega (arith, entries-update n (omega (arith, ne))))
  ]

-- Overwriting one entry by the last and shortening the table takes out just that entry.
entries-remove :
    (l : ℕ → Leak) (n i q : ℕ)
    → i < n
    → entries (n - 1) (update l i (l (n - 1))) q + is_for (l i) q ≡ entries n l q
entries-remove l zero i q h = absurd (omega arith)
entries-remove l (suc m) i q h =
    let e : suc m - 1 ≡ m = omega arith in
    rw e (elim (dec_lt i m) [
      | yes p ↦ entries-update l i (l m) q m p
      | no np ↦
          let last : i ≡ m = omega (arith, np) in
          omega
            (arith, entries-update_above l i (l m) q m (omega arith), ap (λ j. is_for (l j) q) last)
    ])

entries_none : (l : ℕ → Leak) (q n : ℕ) → ((j : ℕ) → j < n → is_for (l j) q ≡ 0) → entries n l q ≡ 0
entries_none l q zero h = refl
entries_none l q (suc n) h =
    omega (arith, h n (omega arith), entries_none l q n (λ j k. h j (omega arith)))

-- What a release of `ptr` may do to the table: nothing, for lack of an entry from index `i` on, or
-- one entry for `ptr` less.
Removed : (i ptr : ℕ) (h g : Heap) → Type 0
Removed i ptr h g =
    (((j : ℕ) → i ≤ j → j < h.leak_count → is_for (h.leaks j) ptr ≡ 0) × (g ≡ h))
    ⊎ ((g.leak_count + 1 ≡ h.leak_count)
        × ((q : ℕ) → live g q + (if ptr == q then 1 else 0) ≡ live h q))

leak_del_loop-Removed :
    (n i ptr : ℕ) (h : Heap) → i + n ≡ h.leak_count → Removed i ptr h (leak_del_loop n i ptr h)
unfolding Removed leak_del_loop
leak_del_loop-Removed zero i ptr h e = inl ((λ j p q. absurd (omega arith)), refl)
leak_del_loop-Removed (suc n) i ptr h e = elim (Bool-cases ((h.leaks i).ptr == ptr)) [
  | inl hit ↦
      let same : (h.leaks i).ptr ≡ ptr = (==_iff _ _).0 hit in
      rw hit (
        inr (
          omega arith,
          λ q. omega (
            arith,
            entries-remove h.leaks h.leak_count i q (omega arith),
            ap {B = ℕ} (λ (p : ℕ). if p == q then 1 else 0) same,
          ),
        ))
  | inr miss ↦ rw miss (elim (leak_del_loop-Removed n (i + 1) ptr h (omega arith)) [
    | inl (none_left, g) ↦ inl (
      (λ j p q. elim (ℕ_discrete i j) [
        | yes at_i ↦ rw (← at_i, miss)
        | no later ↦ none_left j (omega (arith, later)) q
      ]),
      g,
    )
    | inr gone ↦ inr gone
  ])
]

-- `leak_del` takes one entry for the pointer out of the table of live allocations, whatever the
-- order of the entries: the pointer is recorded once less, every other pointer as often as before,
-- and the table is one shorter. Where the pointer is not recorded, nothing changes.
pub leak_del_lem :
    (ptr : ℕ) (h : Heap)
    → ((live h ptr ≡ 0) × (leak_del ptr h ≡ h))
      ⊎ (((leak_del ptr h).leak_count + 1 ≡ h.leak_count)
          × ((q : ℕ) → live (leak_del ptr h) q + (if ptr == q then 1 else 0) ≡ live h q))
unfolding leak_del Removed
leak_del_lem ptr h = elim (leak_del_loop-Removed h.leak_count 0 ptr h (omega arith)) [
  | inl (none_left, same) ↦
      inl (entries_none h.leaks ptr h.leak_count (λ j k. none_left j (omega arith) k), same)
  | inr gone ↦ inr gone
]

-- `leak_add` records the pointer once more and every other pointer as often as before, unless the
-- table is full: then nothing changes. The table never has more than 256 entries.
pub leak_add_lem :
    (ptr size caller : ℕ) (h : Heap)
    → h.leak_count ≤ heap_leak_cap
    → ((leak_add ptr size caller h).leak_count ≤ heap_leak_cap)
      × (((h.leak_count ≡ heap_leak_cap) × (leak_add ptr size caller h ≡ h))
          ⊎ ((q : ℕ)
              → live (leak_add ptr size caller h) q ≡ live h q + (if ptr == q then 1 else 0)))
unfolding leak_add
leak_add_lem ptr size caller h room = elim (Bool-cases (leb heap_leak_cap h.leak_count)) [
  | inl full ↦ rw full (room, inl (omega (arith, leb→le _ _ full), refl))
  | inr space ↦ rw space (ground arith, inr λ q. added q)
]
  where
    entry : Leak
    entry = record { ptr = ptr; size = size; caller = caller }

    added :
        (q : ℕ)
        → entries (h.leak_count + 1) (update h.leaks h.leak_count entry) q
          ≡ live h q + (if ptr == q then 1 else 0)
    added q =
        let e : h.leak_count + 1 ≡ suc h.leak_count = omega arith in
        rw
          (
            e,
            update_same h.leaks h.leak_count entry,
            entries-update_above h.leaks h.leak_count entry q h.leak_count (omega arith),
          )
          refl
