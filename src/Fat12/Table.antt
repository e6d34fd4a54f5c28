-- ===== src/Fat12/Table.antt =====
-- Reading and writing entries of the table of src/drivers/fat12.c.
use iron_kernel.Prelude.{
  ℕ, ◌+◌, ◌*◌, ◌/◌, ◌%◌, ◌<◌, ◌≡◌, ◌∙◌, sym, ap, ap₂, ◌≢◌, inl, inr, arith, lt→leb_not, ◌==◌,
  ==_iff, ==_ne, Bool-cases, if_true, if_false, if◌then◌else◌, update, update_same, update_ne,
}
use iron_kernel.Fat12.{fat_buf_size, offset_of, word, packed, fat12_next_cluster, fat12_set_cluster}

abbrev pub AreBytes : (ℕ → ℕ) → Type 0
AreBytes fat = (i : ℕ) → fat i < 256

-- an entry as the 12 bits of its word
abbrev pub entry_of : (cluster word : ℕ) → ℕ
entry_of cluster w = if cluster % 2 == 1 then w / 16 else w % 4096

next_in :
    (fat : ℕ → ℕ) (cluster : ℕ)
    → offset_of cluster + 1 < fat_buf_size
    → fat12_next_cluster fat cluster ≡ entry_of cluster (word fat (offset_of cluster))
unfolding fat12_next_cluster
next_in fat cluster h = if_false _ _ _ (lt→leb_not fat_buf_size (offset_of cluster + 1) h)

packed_same : (cur c val : ℕ) → cur < 65536 → entry_of c (packed cur c val) ≡ val % 4096
packed_same cur c val h = elim (Bool-cases (c % 2 == 1)) [
  | inl e ↦ rw e (omega arith)
  | inr e ↦ rw e (omega arith)
]

set-word :
    (fat : ℕ → ℕ) (c val : ℕ)
    → AreBytes fat
    → word (fat12_set_cluster c val fat) (offset_of c) ≡ packed (word fat (offset_of c)) c val
unfolding fat12_set_cluster
set-word fat c val b =
    let o = offset_of c in
    let p = packed (word fat o) c val in
    let low = update fat o (p % 256) in
    ap₂ (λ (x y : ℕ). x + y * 256)
      (update_ne low (o + 1) o (p / 256) (omega arith) ∙ update_same fat o (p % 256))
      (update_same low (o + 1) (p / 256))
    ∙ omega arith

-- An odd cluster reads the same when the even one before it is written,
odd_after :
    (lo hi next val c d : ℕ)
    → lo < 256
    → hi < 256
    → c % 2 ≡ 0
    → d % 2 ≡ 1
    → entry_of d (packed (lo + hi * 256) c val / 256 + next * 256) ≡ entry_of d (hi + next * 256)
odd_after lo hi next val c d l h even odd =
    if_true _ _ _ ((==_iff _ _).1 odd)
    ∙ (ap (λ w. (w / 256 + next * 256) / 16)
          (if_false (c % 2 == 1) _ _ (==_ne (c % 2) 1 (omega arith)))
        ∙ (omega arith ∙ sym (if_true _ _ _ ((==_iff _ _).1 odd))))

-- and an even one when the odd one behind it is.
even_before :
    (before lo hi val c d : ℕ)
    → before < 256
    → lo < 256
    → hi < 256
    → c % 2 ≡ 1
    → d % 2 ≡ 0
    → entry_of d (before + packed (lo + hi * 256) c val % 256 * 256)
      ≡ entry_of d (before + lo * 256)
even_before before lo hi val c d m l h odd even =
    if_false _ _ _ (==_ne (d % 2) 1 (omega arith))
    ∙ (ap (λ w. (before + w % 256 * 256) % 4096) (if_true (c % 2 == 1) _ _ ((==_iff _ _).1 odd))
        ∙ (omega arith ∙ sym (if_false _ _ _ (==_ne (d % 2) 1 (omega arith)))))

module _ (fat : ℕ → ℕ) (c d val : ℕ) (b : AreBytes fat) where
  others :
      d ≢ c
      → entry_of d (word (fat12_set_cluster c val fat) (offset_of d))
        ≡ entry_of d (word fat (offset_of d))
  unfolding fat12_set_cluster
  others ne =
      let o = offset_of c in
      let q = offset_of d in
      let p = packed (word fat o) c val in
      let low = update fat o (p % 256) in
      elim (Bool-cases (q == o + 1)) [
        | inl e ↦
            let at : q ≡ o + 1 = (==_iff q (o + 1)).0 e in
            ap₂ (λ (x y : ℕ). entry_of d (x + y * 256))
              (ap (update low (o + 1) (p / 256)) at ∙ update_same low (o + 1) (p / 256))
              (update_ne low (o + 1) (q + 1) (p / 256) (omega arith)
                ∙ update_ne fat o (q + 1) (p % 256) (omega arith))
            ∙ (odd_after (fat o) (fat (o + 1)) (fat (q + 1)) val c d (b o) (b (o + 1)) (omega arith)
                  (omega arith)
                ∙ ap (λ k. entry_of d (fat k + fat (q + 1) * 256)) (sym at))
        | inr e ↦ elim (Bool-cases (q + 1 == o)) [
          | inl f ↦
              let at : q + 1 ≡ o = (==_iff (q + 1) o).0 f in
              ap₂ (λ (x y : ℕ). entry_of d (x + y * 256))
                (update_ne low (o + 1) q (p / 256) (omega arith)
                  ∙ update_ne fat o q (p % 256) (omega arith))
                (ap (update low (o + 1) (p / 256)) at
                  ∙ (update_ne low (o + 1) o (p / 256) (omega arith) ∙ update_same fat o (p % 256)))
              ∙ (even_before (fat q) (fat o) (fat (o + 1)) val c d (b q) (b o) (b (o + 1))
                    (omega arith) (omega arith)
                  ∙ ap (λ k. entry_of d (fat q + fat k * 256)) (sym at))
          | inr f ↦
              let x : q ≢ o + 1 = λ k. cc (e, (==_iff q (o + 1)).1 k) in
              let y : q + 1 ≢ o = λ k. cc (f, (==_iff (q + 1) o).1 k) in
              ap₂ (λ (x y : ℕ). entry_of d (x + y * 256))
                (update_ne low (o + 1) q (p / 256) x ∙ update_ne fat o q (p % 256) (omega arith))
                (update_ne low (o + 1) (q + 1) (p / 256) (omega arith)
                  ∙ update_ne fat o (q + 1) (p % 256) y)
        ]
      ]

-- An entry that is written reads back as its lower 12 bits, and every other entry that the buffer
-- holds keeps its value, although neighbours share a byte.
pub fat12_next_cluster-fat12_set_cluster :
    (fat : ℕ → ℕ) (c d val : ℕ)
    → AreBytes fat
    → offset_of c + 1 < fat_buf_size
    → offset_of d + 1 < fat_buf_size
    → d ≢ c
    → (fat12_next_cluster (fat12_set_cluster c val fat) c ≡ val % 4096)
      × (fat12_next_cluster (fat12_set_cluster c val fat) d ≡ fat12_next_cluster fat d)
fat12_next_cluster-fat12_set_cluster fat c d val b h l ne = (
  next_in (fat12_set_cluster c val fat) c h
      ∙ (ap (entry_of c) (set-word fat c val b)
          ∙ (let x = b (offset_of c) in
              let y = b (offset_of c + 1) in
              packed_same (word fat (offset_of c)) c val (omega arith))),
  next_in (fat12_set_cluster c val fat) d l ∙ (others fat c d val b ne ∙ sym (next_in fat d l)),
)
