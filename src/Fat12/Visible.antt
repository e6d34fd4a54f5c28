-- ===== src/Fat12/Visible.antt =====
-- What `fat12_readdir` of src/drivers/fat12.c gives: against a reading of the directory by the layout of its
-- entries on the drive.
use iron_kernel.Prelude.{
  ℕ, zero, suc, ◌+◌, ◌-◌, ◌*◌, ◌/◌, ◌%◌, ◌≤◌, ◌≡◌, refl, sym, ap, ap₂, fun_ext, ◌∙◌, inl, inr,
  arith, Bool, true, false, not, ◌||◌, ◌&&◌, List, [], ◌∷◌, ◌++◌, append-nil, ◌==◌, ==_ne, if_true,
  if_false, if◌then◌else◌, Bool-cases, length, length-take, min, take, take-nil,
}
use iron_kernel.Fat12.Store.{Volume}
use iron_kernel.Fat12.Search.{entry_name}
use iron_kernel.Fat12.Files.{entry_size}
use iron_kernel.Fat12.Listing.{
  Dentry, unpadded, fill_dentry, is_hidden, Listed, list_entries, list_sectors, fat12_readdir,
}

-- The bytes of a field before its first space.
pub before_space : List ℕ → List ℕ
before_space [] = []
before_space (c ∷ field) = let rest = before_space field in if c == 32 then [] else c ∷ rest

-- The entry of 32 bytes as a user sees it: 8 bytes of name, 3 of extension, the attributes at 11 with the bit of
-- a directory, and the size at 28, the low byte first.
pub shown_entry : (raw : ℕ → ℕ) → Dentry
shown_entry raw = record {
  name = before_space (raw 0 ∷ raw 1 ∷ raw 2 ∷ raw 3 ∷ raw 4 ∷ raw 5 ∷ raw 6 ∷ raw 7 ∷ []);
  ext = before_space (raw 8 ∷ raw 9 ∷ raw 10 ∷ []);
  is_dir = raw 11 / 16 % 2 == 1;
  size = raw 28 + 256 * raw 29 + 65536 * raw 30 + 16777216 * raw 31;
}

-- An entry is shown when its first byte is neither the mark of a deleted one nor a dot, and none of the bits
-- hidden, system and volume label, 1 to 3, is set.
pub is_shown : (raw : ℕ → ℕ) → Bool
is_shown raw = not (raw 0 == 0xE5) && not (raw 0 == 46) && raw 11 / 2 % 8 == 0

-- The entries that a list shows, up to one that was never in use.
pub shown : List (ℕ → ℕ) → List Dentry
shown [] = []
shown (raw ∷ raws) =
    let rest = shown raws in
    if raw 0 == 0 then [] else if is_shown raw then shown_entry raw ∷ rest else rest

-- The entries of a sector, `n` from the `i`th on, and of the sectors before one that cannot be read.
pub raw_entries : (n i : ℕ) → (ℕ → ℕ) → List (ℕ → ℕ)
raw_entries zero i b = []
raw_entries (suc n) i b = (λ c. b (i * 32 + c)) ∷ raw_entries n (i + 1) b

pub directory : (n lba : ℕ) → Volume → List (ℕ → ℕ)
directory zero lba v = []
directory (suc n) lba v =
    let rest = directory n (lba + 1) v in
    if v.readable lba then raw_entries 16 0 (v.disk lba) ++ rest else []

-- All that a sector shows, without a bound on the number.
visible_entries : (n i : ℕ) → (ℕ → ℕ) → List Dentry
visible_entries zero i b = []
visible_entries (suc n) i b =
    let rest = visible_entries n (i + 1) b in
    if entry_name b i 0 == 0 then [] else if is_hidden b i then rest else fill_dentry b i ∷ rest

-- Whether an entry that was never in use ends the directory in this sector.
ends_here : (n i : ℕ) → (ℕ → ℕ) → Bool
ends_here zero i b = false
ends_here (suc n) i b =
    let rest = ends_here n (i + 1) b in if entry_name b i 0 == 0 then true else rest

-- All that the root directory shows, sector by sector.
visible : (n lba : ℕ) → Volume → List Dentry
visible zero lba v = []
visible (suc n) lba v =
    let rest = visible n (lba + 1) v in
    let here = visible_entries 16 0 (v.disk lba) in
    if v.readable lba then (if ends_here 16 0 (v.disk lba) then here else here ++ rest) else []

list_entries-visible :
    (n i room : ℕ) (b : ℕ → ℕ)
    → (list_entries n i room b).entries ≡ take room (visible_entries n i b)
unfolding list_entries visible_entries
list_entries-visible zero i room b = sym (take-nil room)
list_entries-visible (suc n) i zero b = refl
list_entries-visible (suc n) i (suc room) b = elim (Bool-cases (entry_name b i 0 == 0)) [
  | inl e ↦ ground arith
  | inr e ↦ elim (Bool-cases (is_hidden b i)) [
    | inl f ↦ ground (arith, list_entries-visible n (i + 1) (suc room) b)
    | inr f ↦ ground (arith, list_entries-visible n (i + 1) room b)
  ]
]

done→ends :
    (n i room : ℕ) (b : ℕ → ℕ) → (list_entries n i room b).done ≡ true → ends_here n i b ≡ true
unfolding list_entries ends_here
done→ends zero i room b h = cc h
done→ends (suc n) i zero b h = cc h
done→ends (suc n) i (suc room) b h = elim (Bool-cases (entry_name b i 0 == 0)) [
  | inl e ↦ if_true _ _ _ e
  | inr e ↦ elim (Bool-cases (is_hidden b i)) [
    | inl f ↦ ground (arith, done→ends n (i + 1) (suc room) b)
    | inr f ↦ ground (arith, done→ends n (i + 1) room b)
  ]
]

-- Where the end is not seen, there was no room to see it.
unseen_end :
    (n i room : ℕ) (b : ℕ → ℕ)
    → (list_entries n i room b).done ≡ false
    → ends_here n i b ≡ true
    → room ≤ length (visible_entries n i b)
unfolding list_entries ends_here visible_entries
unseen_end zero i room b h g = cc g
unseen_end (suc n) i zero b h g = omega arith
unseen_end (suc n) i (suc room) b h g = elim (Bool-cases (entry_name b i 0 == 0)) [
  | inl e ↦ ground arith
  | inr e ↦ elim (Bool-cases (is_hidden b i)) [
    | inl f ↦ ground (arith, unseen_end n (i + 1) (suc room) b)
    | inr f ↦ ground (arith, unseen_end n (i + 1) room b)
  ]
]

take-append {ℓ} :
    {A : Type ℓ} (r : ℕ) (xs ys : List A) → take r (xs ++ ys) ≡ take r xs ++ take (r - length xs) ys
take-append zero xs ys = let e : 0 ≡ 0 - length xs = omega arith in ap (λ k. take k ys) e
take-append (suc r) [] ys = let e : suc r ≡ suc r - 0 = omega arith in ap (λ k. take k ys) e
take-append (suc r) (x ∷ xs) ys =
    let e : r - length xs ≡ suc r - suc (length xs) = omega arith in
    ap (λ l. x ∷ l) (take-append r xs ys ∙ ap (λ k. take r xs ++ take k ys) e)

sector_part :
    (l rest : Listed) (here further : List Dentry) (ends : Bool) (room : ℕ)
    → l.entries ≡ take room here
    → (l.done ≡ true → ends ≡ true)
    → (l.done ≡ false → ends ≡ true → room ≤ length here)
    → rest.entries ≡ take (room - length l.entries) further
    → (if l.done then l else record rest { entries = l.entries ++ rest.entries }).entries
      ≡ take room (if ends then here else here ++ further)
sector_part l rest here further ends room e d u r =
    let size : length l.entries ≡ min room (length here) = ap length e ∙ length-take room here in
    elim (Bool-cases l.done) [
      | inl a ↦
          ap (λ (x : Listed). x.entries) (if_true l.done l _ a)
          ∙ (e ∙ ap (take room) (sym (if_true ends here _ (d a))))
      | inr a ↦ ap (λ (x : Listed). x.entries) (if_false l.done l _ a) ∙ elim (Bool-cases ends) [
        | inl b ↦
            let full = u a b in
            let none_left : room - length l.entries ≡ 0 = omega arith in
            ap (λ x. l.entries ++ x) (r ∙ ap (λ k. take k further) none_left)
            ∙ (append-nil l.entries ∙ (e ∙ ap (take room) (sym (if_true ends here _ b))))
        | inr b ↦
            let left : room - length l.entries ≡ room - length here = omega arith in
            ap₂ (λ x y. x ++ y) e (r ∙ ap (λ k. take k further) left)
            ∙ (sym (take-append room here further) ∙ ap (take room) (sym (if_false ends here _ b)))
      ]
    ]

list_sectors-visible :
    (n lba room : ℕ) (v : Volume)
    → (list_sectors n lba room v).entries ≡ take room (visible n lba v)
unfolding list_sectors visible
list_sectors-visible zero lba room v = sym (take-nil room)
list_sectors-visible (suc n) lba zero v = refl
list_sectors-visible (suc n) lba (suc r) v =
    let b = v.disk lba in
    let room : (suc r == 0) ≡ false = ==_ne (suc r) 0 (omega arith) in
    let l = list_entries 16 0 (suc r) b in
    elim (Bool-cases (v.readable lba)) [
      | inr e ↦
          ap (λ (x : Listed). x.entries)
            (if_false (suc r == 0) _ _ room ∙ if_true (not (v.readable lba)) _ _ (ap not e))
          ∙ ap (take (suc r)) (sym (if_false (v.readable lba) _ [] e))
      | inl e ↦
          ap (λ (x : Listed). x.entries)
            (if_false (suc r == 0) _ _ room ∙ if_false (not (v.readable lba)) _ _ (ap not e))
          ∙ (sector_part l (list_sectors n (lba + 1) (suc r - length l.entries) v)
                (visible_entries 16 0 b) (visible n (lba + 1) v) (ends_here 16 0 b) (suc r)
                (list_entries-visible 16 0 (suc r) b) (done→ends 16 0 (suc r) b)
                (unseen_end 16 0 (suc r) b)
                (list_sectors-visible n (lba + 1) (suc r - length l.entries) v)
              ∙ ap (take (suc r)) (sym (if_true (v.readable lba) _ [] e)))
    ]

hidden_bits :
    (a : ℕ) → (a / 8 % 2 == 1 || (a / 2 % 2 == 1 || a / 4 % 2 == 1)) ≡ not (a / 2 % 8 == 0)
hidden_bits a = ground arith

is_hidden-is_shown : (b : ℕ → ℕ) (i : ℕ) → is_hidden b i ≡ not (is_shown λ c. b (i * 32 + c))
unfolding is_hidden is_shown
is_hidden-is_shown b i =
    ap (λ t. b (i * 32 + 0) == 0xE5 || (b (i * 32 + 0) == 46 || t)) (hidden_bits (b (i * 32 + 11)))
    ∙ de_morgan (b (i * 32 + 0) == 0xE5) (b (i * 32 + 0) == 46) (b (i * 32 + 11) / 2 % 8 == 0)
  where
    de_morgan : (x y z : Bool) → (x || (y || not z)) ≡ not (not x && not y && z)
    de_morgan x y z = ground arith

fill_dentry-shown_entry : (b : ℕ → ℕ) (i : ℕ) → fill_dentry b i ≡ shown_entry (λ c. b (i * 32 + c))
unfolding fill_dentry shown_entry unpadded before_space
fill_dentry-shown_entry b i =
    let at : (k c : ℕ) → b (i * 32 + k + c) ≡ b (i * 32 + (k + c)) = λ k c. ap b (omega arith) in
    let ext = ap (unpadded 3 0) (fun_ext λ c. at 8 c) in
    let size : entry_size b i ≡ (shown_entry (λ c. b (i * 32 + c))).size =
      let last : b (i * 32 + 28 + 2 + 1) ≡ b (i * 32 + 31) = ap b (omega arith) in
      omega (arith, at 28 1, at 28 2, last) in
    ap₂
      (λ (x : List ℕ) (s : ℕ).
        let d : Dentry = record {
          name = unpadded 8 0 (entry_name b i);
          ext = x;
          is_dir = b (i * 32 + 11) / 16 % 2 == 1;
          size = s;
        } in
        d)
      ext size

shown-raw_entries :
    (n i : ℕ) (b : ℕ → ℕ) (more : List (ℕ → ℕ))
    → shown (raw_entries n i b ++ more)
      ≡ (if ends_here n i b then visible_entries n i b else visible_entries n i b ++ shown more)
unfolding shown raw_entries ends_here visible_entries
shown-raw_entries zero i b more = refl
shown-raw_entries (suc n) i b more =
    let ih = shown-raw_entries n (i + 1) b more in
    let hidden = is_hidden-is_shown b i in
    let entry = fill_dentry-shown_entry b i in
    elim (Bool-cases (entry_name b i 0 == 0)) [
      | inl e ↦ ground arith
      | inr e ↦ elim (Bool-cases (ends_here n (i + 1) b)) [
        | inl f ↦ ground arith
        | inr f ↦ ground arith
      ]
    ]

visible-shown : (n lba : ℕ) (v : Volume) → visible n lba v ≡ shown (directory n lba v)
unfolding visible directory
visible-shown zero lba v = unfold shown in refl
visible-shown (suc n) lba v = elim (Bool-cases (v.readable lba)) [
  | inr e ↦ if_false _ _ _ e ∙ sym (ap shown (if_false _ _ _ e) ∙ unfold shown in refl)
  | inl e ↦
      let b = v.disk lba in
      let here = visible_entries 16 0 b in
      if_true _ _ _ e
      ∙ (ap (λ l. if ends_here 16 0 b then here else here ++ l) (visible-shown n (lba + 1) v)
          ∙ (sym (shown-raw_entries 16 0 b (directory n (lba + 1) v))
              ∙ sym (ap shown (if_true _ _ _ e))))
]

-- On a mounted volume `fat12_readdir` gives the first `max_entries` of the entries that the root directory
-- shows by their layout on the drive: those before the end of the directory or the first sector that
-- cannot be read, without deleted, dot, hidden and system entries and volume labels, each with its
-- name and extension up to the first space, the bit of a directory and the size.
pub fat12_readdir-shown :
    (max_entries : ℕ) (v : Volume)
    → v.fs.mounted ≡ true
    → fat12_readdir 0 max_entries v
      ≡ take max_entries (shown (directory v.fs.root_dir_sectors v.fs.first_root_sector v))
unfolding fat12_readdir
fat12_readdir-shown zero v up =
    if_true (not v.fs.mounted || zero == 0) _ _ (ap (λ b. not b || true) up)
fat12_readdir-shown (suc n) v up =
    let some : (suc n == 0) ≡ false = ==_ne (suc n) 0 (omega arith) in
    if_false (not v.fs.mounted || suc n == 0) _ _ (ap₂ (λ a b. not a || b) up some)
    ∙ (list_sectors-visible v.fs.root_dir_sectors v.fs.first_root_sector (suc n) v
        ∙ ap (take (suc n)) (visible-shown v.fs.root_dir_sectors v.fs.first_root_sector v))
