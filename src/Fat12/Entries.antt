-- ===== src/Fat12/Entries.antt =====
-- The bytes of directory entries in src/drivers/fat12.c.
use iron_kernel.Prelude.{
  ℕ, zero, suc, ◌+◌, ◌-◌, ◌*◌, ◌/◌, ◌%◌, ◌^◌, ◌≤◌, ◌<◌, ◌≡◌, refl, sym, ap, ap₂, ◌∙◌, ◌≢◌, ◌⊎◌, inl,
  inr, arith, Bool, true, false, not, ◌||◌, ◌&&◌, ◌==◌, ==_iff, ==_ne, Bool-cases, if_true,
  if_false, ltb, leb, if◌then◌else◌, update, update_same, update_ne,
}
use iron_kernel.Fat12.Store.{le16}
use iron_kernel.Fat12.Search.{
  Wanted, free_slot, named, hit, stop, pass, judge, entry_name, entry_ext, same_entry, same_field,
  to_upper,
}
use iron_kernel.Fat12.Files.{
  entry_cluster, entry_size, put16, set_contents, set_name, set_attr, padded,
}

put16-others : (i val : ℕ) (b : ℕ → ℕ) (j : ℕ) → (j < i) ⊎ (i + 1 < j) → put16 i val b j ≡ b j
put16-others i val b j h = elim h [
  | inl l ↦ kept (omega arith) (omega arith)
  | inr l ↦ kept (omega arith) (omega arith)
]
  where
    kept : j ≢ i → j ≢ i + 1 → put16 i val b j ≡ b j
    kept a c =
        update_ne (update b i (val % 256)) (i + 1) j (val / 256 % 256) c
        ∙ update_ne b i j (val % 256) a

-- Bytes outside those that a change names are kept.
pub set_contents-others :
    (i first len : ℕ) (b : ℕ → ℕ) (j : ℕ)
    → (j < i * 32 + 26) ⊎ (i * 32 + 32 ≤ j)
    → set_contents i first len b j ≡ b j
unfolding set_contents
set_contents-others i first len b j h =
    let b1 = put16 (i * 32 + 26) first b in
    let b2 = put16 (i * 32 + 28) len b1 in
    put16-others (i * 32 + 28 + 2) (len / 65536) b2 j
      (side (i * 32 + 28 + 2) (omega arith) (omega arith))
    ∙ (put16-others (i * 32 + 28) len b1 j (side (i * 32 + 28) (omega arith) (omega arith))
        ∙ put16-others (i * 32 + 26) first b j (side (i * 32 + 26) (omega arith) (omega arith)))
  where
    side : (k : ℕ) → i * 32 + 26 ≤ k → k + 2 ≤ i * 32 + 32 → (j < k) ⊎ (k + 1 < j)
    side k l m = elim h [ inl a ↦ inl (omega arith) | inr a ↦ inr (omega arith) ]

pub set_name-others :
    (i : ℕ) (name ext b : ℕ → ℕ) (j : ℕ)
    → (j < i * 32) ⊎ (i * 32 + 11 ≤ j)
    → set_name i name ext b j ≡ b j
unfolding set_name
set_name-others i name ext b j h = elim h [ inl l ↦ ground arith | inr l ↦ ground arith ]

pub set_attr-others :
    (i attr : ℕ) (b : ℕ → ℕ) (j : ℕ)
    → (j < i * 32 + 11) ⊎ (i * 32 + 26 ≤ j)
    → set_attr i attr b j ≡ b j
unfolding set_attr
set_attr-others i attr b j h = elim h [ inl l ↦ ground arith | inr l ↦ ground arith ]

le16-put16 : (i val : ℕ) (b : ℕ → ℕ) → le16 (put16 i val b) i ≡ val % 65536
le16-put16 i val b =
    let low = update b i (val % 256) in
    ap₂ (λ (x y : ℕ). x + y * 256)
      (update_ne low (i + 1) i (val / 256 % 256) (omega arith) ∙ update_same b i (val % 256))
      (update_same low (i + 1) (val / 256 % 256))
    ∙ omega arith

le16-put16_apart :
    (i j val : ℕ) (b : ℕ → ℕ) → (j + 1 < i) ⊎ (i + 1 < j) → le16 (put16 i val b) j ≡ le16 b j
le16-put16_apart i j val b h = elim h [
  | inl l ↦ kept (omega arith) (omega arith) (omega arith) (omega arith)
  | inr l ↦ kept (omega arith) (omega arith) (omega arith) (omega arith)
]
  where
    kept : j ≢ i → j ≢ i + 1 → j + 1 ≢ i → j + 1 ≢ i + 1 → le16 (put16 i val b) j ≡ le16 b j
    kept a c d e =
        let low = update b i (val % 256) in
        ap₂ (λ (x y : ℕ). x + y * 256)
          (update_ne low (i + 1) j (val / 256 % 256) c ∙ update_ne b i j (val % 256) a)
          (update_ne low (i + 1) (j + 1) (val / 256 % 256) e ∙ update_ne b i (j + 1) (val % 256) d)

-- What is written into an entry reads back.
pub set_contents-reads :
    (i first len : ℕ) (b : ℕ → ℕ)
    → first < 2 ^ 16
    → len < 2 ^ 32
    → (entry_cluster (set_contents i first len b) i ≡ first)
      × (entry_size (set_contents i first len b) i ≡ len)
unfolding set_contents
set_contents-reads i first len b h l =
    let b1 = put16 (i * 32 + 26) first b in
    let b2 = put16 (i * 32 + 28) len b1 in
    let high = i * 32 + 28 + 2 in
    (
      le16-put16_apart high (i * 32 + 26) (len / 65536) b2 (inl (omega arith))
          ∙ (le16-put16_apart (i * 32 + 28) (i * 32 + 26) len b1 (inl (omega arith))
              ∙ (le16-put16 (i * 32 + 26) first b ∙ omega arith)),
      ap₂ (λ (x y : ℕ). x + y * 65536)
            (le16-put16_apart high (i * 32 + 28) (len / 65536) b2 (inl (omega arith))
              ∙ le16-put16 (i * 32 + 28) len b1)
            (le16-put16 high (len / 65536) b2)
          ∙ omega arith,
    )

-- A verdict reads the 11 bytes of name and extension.
abbrev pub SameName : (b b' : ℕ → ℕ) → (i : ℕ) → Type 0
SameName b b' i = (c : ℕ) → c < 11 → b' (i * 32 + c) ≡ b (i * 32 + c)

same_field-ext :
    (n c : ℕ) (f g name : ℕ → ℕ)
    → ((k : ℕ) → c ≤ k → k < c + n → g k ≡ f k)
    → same_field n c g name ≡ same_field n c f name
unfolding same_field
same_field-ext zero c f g name h = refl
same_field-ext (suc n) c f g name h =
    ap₂ (λ (x : ℕ) (r : Bool). if x == to_upper (name c) then r else false)
      (h c (omega arith) (omega arith))
      (same_field-ext n (c + 1) f g name (λ k l m. h k (omega arith) (omega arith)))

pub judge-ext : (w : Wanted) (b b' : ℕ → ℕ) (i : ℕ) → SameName b b' i → judge w b' i ≡ judge w b i
unfolding judge
judge-ext free_slot b b' i h =
    ap (λ (x : ℕ). if x == 0 || x == 0xE5 then hit else pass) (h 0 (omega arith))
judge-ext (named name ext) b b' i h =
    ap₂
      (λ (x : ℕ) (s : Bool).
        if x == 0 then stop else if x == 0xE5 then pass else if s then hit else pass)
      (h 0 (omega arith)) same
  where
    same : same_entry b' i name ext ≡ same_entry b i name ext
    same =
        unfold same_entry in
        ap₂ (λ (x y : Bool). x && y)
          (same_field-ext 8 0 (entry_name b i) (entry_name b' i) name (λ k _ m. h k (omega arith)))
          (same_field-ext 3 0 (entry_ext b i) (entry_ext b' i) ext
            (λ k _ m. ap b' (omega arith) ∙ (h (8 + k) (omega arith) ∙ ap b (omega arith))))

-- A name that `fat12_write_file` can give: filled up with spaces, and not as a deleted entry begins.
pub record IsName (name ext : ℕ → ℕ) : Type 0 where
  pub name_filled : (c : ℕ) → c < 8 → name c ≢ 0
  pub ext_filled : (c : ℕ) → c < 3 → ext c ≢ 0
  pub not_deleted : name 0 ≢ 0xE5

padded-eq : (c : ℕ) → c ≢ 0 → padded c ≡ to_upper c
unfolding padded
padded-eq c h = elim (Bool-cases (c == b' ')) [
  | inl e ↦
      ap to_upper (if_true (c == 0 || c == b' ') _ _ (ground arith) ∙ sym ((==_iff c b' ').0 e))
  | inr e ↦ ap to_upper (if_false (c == 0 || c == b' ') b' ' c (ground arith))
]

same_field-padded :
    (n c : ℕ) (f name : ℕ → ℕ)
    → ((k : ℕ) → c ≤ k → k < c + n → f k ≡ to_upper (name k))
    → same_field n c f name ≡ true
unfolding same_field
same_field-padded zero c f name h = refl
same_field-padded (suc n) c f name h =
    if_true _ _ _ ((==_iff (f c) (to_upper (name c))).1 (h c (omega arith) (omega arith)))
    ∙ same_field-padded n (c + 1) f name (λ k l m. h k (omega arith) (omega arith))

to_upper_first : (c : ℕ) → c ≢ 0 → c ≢ 0xE5 → (to_upper c ≢ 0) × (to_upper c ≢ 0xE5)
unfolding to_upper
to_upper_first c h l = (λ e. ground arith, λ e. ground arith)

-- An entry whose 11 bytes are a name in capitals is the one that a search for it finds.
pub judge-named :
    (name ext b : ℕ → ℕ) (i : ℕ)
    → IsName name ext
    → ((c : ℕ) → c < 8 → b (i * 32 + c) ≡ padded (name c))
    → ((c : ℕ) → c < 3 → b (i * 32 + 8 + c) ≡ padded (ext c))
    → judge (named name ext) b i ≡ hit
unfolding judge same_entry
judge-named name ext b i q hn he =
    let first = to_upper_first (name 0) (q.name_filled 0 (omega arith)) q.not_deleted in
    let at0 : entry_name b i 0 ≡ to_upper (name 0) =
      hn 0 (omega arith) ∙ padded-eq (name 0) (q.name_filled 0 (omega arith)) in
    if_false _ _ _ (==_ne _ 0 (λ e. first.0 (sym at0 ∙ e)))
    ∙ (if_false _ _ _ (==_ne _ 0xE5 (λ e. first.1 (sym at0 ∙ e)))
        ∙ if_true _ _ _ (
            ap₂ (λ (x y : Bool). x && y)
              (same_field-padded 8 0 (entry_name b i) name
                (λ k _ m. hn k (omega arith) ∙ padded-eq (name k) (q.name_filled k (omega arith))))
              (same_field-padded 3 0 (entry_ext b i) ext
                (λ k _ m. he k (omega arith) ∙ padded-eq (ext k) (q.ext_filled k (omega arith))))))

-- The bytes that `set_name` writes.
pub set_name-name :
    (i c : ℕ) (name ext b : ℕ → ℕ) → c < 8 → set_name i name ext b (i * 32 + c) ≡ padded (name c)
unfolding set_name
set_name-name i c name ext b h =
    let j = i * 32 + c in
    let e : j - i * 32 ≡ c = omega arith in
    if_false (not (leb (i * 32) j)) _ _ (ground arith)
    ∙ (if_true (ltb (j - i * 32) 8) _ _ (ground arith) ∙ ap (λ k. padded (name k)) e)

pub set_name-ext :
    (i c : ℕ) (name ext b : ℕ → ℕ) → c < 3 → set_name i name ext b (i * 32 + 8 + c) ≡ padded (ext c)
unfolding set_name
set_name-ext i c name ext b h =
    let j = i * 32 + 8 + c in
    let e : j - i * 32 - 8 ≡ c = omega arith in
    if_false (not (leb (i * 32) j)) _ _ (ground arith)
    ∙ (if_false (ltb (j - i * 32) 8) _ _ (ground arith)
        ∙ (if_true (ltb (j - i * 32) 11) _ _ (ground arith) ∙ ap (λ k. padded (ext k)) e))
