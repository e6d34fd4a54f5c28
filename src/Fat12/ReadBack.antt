-- ===== src/Fat12/ReadBack.antt =====
-- Reading a chain of clusters in `fat12_read_file` of src/drivers/fat12.c.
use iron_kernel.Prelude.{
  ℕ, zero, suc, ◌+◌, ◌-◌, ◌*◌, ◌^◌, ◌≤◌, ◌<◌, min, ◌≡◌, refl, sym, ap, ap₂, ◌∙◌, ◌≢◌, arith, true,
  false, ◌&&◌, not, List, [], ◌∷◌, ◌++◌, append-nil, append_assoc, ◌==◌, ltb, if_true, if_false,
  if◌then◌else◌, length, get_or, take, drop, length-take, length-drop, drop-nil, drop-drop, ==_ne,
  length-append, take-nil, take-append-drop, u32, le→ltb,
}
use iron_kernel.Fat12.Store.{Volume, Status, success, failure, lba_of, sector_of}
use iron_kernel.Fat12.Search.{is_data_cluster}
use iron_kernel.Fat12.Files.{bytes_from, Reading, to_copy, read_sectors, read_chain}
use iron_kernel.Fat12.Sectors.{HoldsAt}
use iron_kernel.Fat12.Written.{IsCluster, next}
use iron_kernel.Fat12.Chained.{Run}

bytes_from-eq :
    (xs : List ℕ) (b : ℕ) (f : ℕ → ℕ)
    → ((i : ℕ) → f (b + i) ≡ get_or xs i 0)
    → bytes_from (length xs) b f ≡ xs
unfolding bytes_from
bytes_from-eq [] b f h = refl
bytes_from-eq (x ∷ xs) b f h =
    ap₂ (λ (y : ℕ) ys. y ∷ ys) (ap f (omega arith) ∙ h 0)
      (bytes_from-eq xs (b + 1) f (λ i. ap f (omega arith) ∙ h (suc i)))

-- As many bytes of a sector as the file has left.
first_bytes : (src : List ℕ) → bytes_from (min 512 (length src)) 0 (sector_of src) ≡ take 512 src
first_bytes src =
    ap (λ k. bytes_from k 0 (sector_of src)) (sym (length-take 512 src))
    ∙ bytes_from-eq (take 512 src) 0 (sector_of src) (λ i. ap (sector_of src) (omega arith))

take-add {ℓ} :
    {A : Type ℓ} (m n : ℕ) (xs : List A) → take (m + n) xs ≡ take m xs ++ take n (drop m xs)
take-add zero n xs = ap (λ k. take k xs) (omega arith)
take-add (suc m) n [] =
    let e : suc m + n ≡ suc (m + n) = omega arith in ap (λ k. take k []) e ∙ sym (take-nil n)
take-add (suc m) n (x ∷ xs) =
    let e : suc m + n ≡ suc (m + n) = omega arith in
    ap (λ k. take k (x ∷ xs)) e ∙ ap (λ l. x ∷ l) (take-add m n xs)

abbrev reading : List ℕ → ℕ → Reading
reading taken remaining = record { taken = taken; remaining = remaining }

-- The buffer has room for the rest of the file.
abbrev pub Room : (buf_size : ℕ) → (taken src : List ℕ) → Type 0
Room buf_size taken src = (length taken + length src ≤ buf_size) × (buf_size + 512 < 2 ^ 32)

to_copy-eq :
    (buf_size : ℕ) (taken src : List ℕ)
    → Room buf_size taken src
    → to_copy buf_size (reading taken (length src)) ≡ min 512 (length src)
to_copy-eq buf_size taken src h =
    let small : u32 (length taken + min 512 (length src)) ≤ buf_size = omega arith in
    if_false _ _ _ (le→ltb buf_size (u32 (length taken + min 512 (length src))) small)

module _ (buf_size : ℕ) (v : Volume) (good : (m : ℕ) → v.readable m ≡ true) where
  sectors_step :
      (n lba : ℕ) (taken src : List ℕ)
      → Room buf_size taken src
      → v.disk lba ≡ sector_of src
      → read_sectors (suc n) lba buf_size v (reading taken (length src)) ≡ (
          if min 512 (length src) == 0
          then (success, reading taken (length src))
          else read_sectors n
              (lba + 1)
              buf_size
              v
              (reading (taken ++ take 512 src) (length src - min 512 (length src))))
  unfolding read_sectors
  sectors_step n lba taken src room held =
      let r = reading taken (length src) in
      let go = λ (k : ℕ) (bytes : List ℕ).
        if k == 0
        then (success, r)
        else read_sectors n (lba + 1) buf_size v (reading (taken ++ bytes) (length src - k)) in
      if_false _ _ _ (ap not (good lba))
      ∙ (ap (λ k. go k (bytes_from k 0 (v.disk lba))) (to_copy-eq buf_size taken src room)
          ∙ ap (go (min 512 (length src)))
              (ap (bytes_from (min 512 (length src)) 0) held ∙ first_bytes src))

  -- Sectors that hold the rest of a file give their part of it.
  read_sectors-eq :
      (n lba : ℕ) (taken src : List ℕ)
      → Room buf_size taken src
      → HoldsAt v n lba src
      → read_sectors n lba buf_size v (reading taken (length src))
        ≡ (success, reading (taken ++ take (n * 512) src) (length (drop (n * 512) src)))
  unfolding read_sectors
  read_sectors-eq zero lba taken src room held =
      ap (λ t. (success, reading t (length src))) (sym (append-nil taken))
  read_sectors-eq (suc n) lba taken [] room held =
      sectors_step n lba taken [] room held.0
      ∙ ap₂ (λ t l. (success, reading t l))
          (sym (ap (λ t. taken ++ t) (take-nil (suc n * 512)) ∙ append-nil taken))
          (sym (ap length (drop-nil {A = ℕ} (suc n * 512))))
  read_sectors-eq (suc n) lba taken (x ∷ xs) room held =
      let src = x ∷ xs in
      let t = taken ++ take 512 src in
      let parts = take-append-drop 512 src in
      let some : (min 512 (length src) == 0) ≡ false = ==_ne _ 0 (omega arith) in
      let left : length src - min 512 (length src) ≡ length (drop 512 src) =
        omega (arith, length-drop 512 src) in
      let room' : Room buf_size t (drop 512 src) =
        omega
          (arith, length-append taken (take 512 src), length-take 512 src, length-drop 512 src) in
      let e : 512 + n * 512 ≡ suc n * 512 = omega arith in
      sectors_step n lba taken src room held.0
      ∙ (if_false _ _ _ some
          ∙ (ap (λ k. read_sectors n (lba + 1) buf_size v (reading t k)) left
              ∙ (read_sectors-eq n (lba + 1) t (drop 512 src) room' held.1
                  ∙ ap₂ (λ (a : List ℕ) (b : ℕ). (success, reading a b))
                      (append_assoc taken (take 512 src) (take (n * 512) (drop 512 src))
                        ∙ ap (λ l. taken ++ l)
                            (sym (take-add 512 (n * 512) src) ∙ ap (λ k. take k src) e))
                      (ap length (drop-drop (n * 512) 512 src ∙ ap (λ k. drop k src) e)))))

  cluster_step :
      (limit c : ℕ) (taken src : List ℕ)
      → Room buf_size taken src
      → src ≢ []
      → IsCluster c
      → HoldsAt v v.fs.sectors_per_cluster (lba_of v.fs c) src
      → read_chain (suc limit) c buf_size v (reading taken (length src))
        ≡ read_chain limit (next v c) buf_size v (
            reading
              (taken ++ take (v.fs.sectors_per_cluster * 512) src)
              (length (drop (v.fs.sectors_per_cluster * 512) src)))
  unfolding read_chain
  cluster_step limit c taken [] room ne i held = absurd (ne refl)
  cluster_step limit c taken (x ∷ xs) room ne i held =
      let src = x ∷ xs in
      let Res = Status × Reading in
      let go = λ (r : Status × Reading).
        let res : Status × Reading = elim r.0 [
          | failure ↦ (failure, r.1)
          | success ↦ read_chain limit (next v c) buf_size v r.1
        ] in
        res in
      if_true _ _ _ (in_chain c (length xs) i)
      ∙ ap go (read_sectors-eq v.fs.sectors_per_cluster (lba_of v.fs c) taken src room held)
    where
      in_chain : (c k : ℕ) → IsCluster c → (is_data_cluster c && ltb 0 (suc k)) ≡ true
      in_chain c k i = ground arith

  -- A chain that holds a file reads as that file.
  pub read_chain-Run :
      (limit n c : ℕ) (taken src : List ℕ)
      → Room buf_size taken src
      → n ≤ limit
      → length src ≤ n * (v.fs.sectors_per_cluster * 512)
      → Run v n c src
      → read_chain limit c buf_size v (reading taken (length src))
        ≡ (success, reading (taken ++ src) 0)
  unfolding read_chain
  read_chain-Run limit n c taken [] room few enough run =
      finished limit ∙ ap (λ t. (success, reading t 0)) (sym (append-nil taken))
    where
      finished :
          (limit : ℕ) → read_chain limit c buf_size v (reading taken 0) ≡ (success, reading taken 0)
      finished zero = refl
      finished (suc limit) = if_false (is_data_cluster c && ltb 0 0) _ _ (ground arith)
  read_chain-Run limit zero c taken (x ∷ xs) room few enough run = absurd (omega arith)
  read_chain-Run zero (suc n) c taken (x ∷ xs) room few enough run = absurd (omega arith)
  read_chain-Run (suc limit) (suc n) c taken (x ∷ xs) room few enough run =
      let src = x ∷ xs in
      let per = v.fs.sectors_per_cluster * 512 in
      let t = taken ++ take per src in
      let all = take-append-drop per src in
      let sizes : length (take per src) + length (drop per src) ≡ length src =
        sym (length-append (take per src) (drop per src)) ∙ ap length all in
      let room' : Room buf_size t (drop per src) =
        omega (arith, length-append taken (take per src), sizes) in
      cluster_step limit c taken src room (λ e. cc e) run.0 run.1
      ∙ (read_chain-Run limit n (next v c) t (drop per src) room' (omega arith)
            (omega (arith, length-drop per src)) run.2
          ∙ ap (λ l. (success, reading l 0))
              (append_assoc taken (take per src) (drop per src) ∙ ap (λ l. taken ++ l) all))
