-- ===== src/Klog/Ring.antt =====
-- The ring of src/kernel/klog.c as a list of the latest entries.
use iron_kernel.Prelude.{
  ℕ, zero, suc, ◌+◌, ◌-◌, ◌%◌, ◌^◌, ◌≤◌, ◌<◌, ◌≡◌, ◌∙◌, refl, sym, ap, ap₂, inl, inr, List, [], ◌∷◌,
  ◌++◌, arith, ltb, ltb→lt, lt→ltb, le→ltb, Bool-cases, if_false, update, update_same, u32, length,
  length-append, drop, drop-append, drop-drop, length-drop, append-nil, append_assoc,
}
use iron_kernel.Prelude.Window.{window, length-window, window-mod, window-snoc, window-update_ne}
use iron_kernel.Klog.{klog_cap, klog_msglen, Entry, Log, k_strcpy, klog, dump_loop, klog_dump}

pub record IsValid (l : Log) : Type 0 where
  pub write_in : l.write < klog_cap
  pub count_in : l.count ≤ klog_cap

-- where the oldest entry is, before the index wraps
abbrev oldest : Log → ℕ
oldest l = l.write + klog_cap - l.count

dump_loop-window :
    (l : Log) (start n i : ℕ) → dump_loop l start n i ≡ window klog_cap l.ring (start + i) n
unfolding dump_loop
dump_loop-window l start zero i = refl
dump_loop-window l start (suc n) i =
    ap (λ xs. l.ring ((start + i) % klog_cap) ∷ xs)
      (dump_loop-window l start n (i + 1)
        ∙ (let e : start + (i + 1) ≡ suc (start + i) = omega arith in
            ap (λ k. window klog_cap l.ring k n) e))

klog_dump-window : (l : Log) → IsValid l → klog_dump l ≡ window klog_cap l.ring (oldest l) l.count
unfolding klog_dump
klog_dump-window l v =
    let w = v.write_in in
    let c = v.count_in in
    let start = u32 (l.write + 2 ^ 32 - l.count) % klog_cap in
    dump_loop-window l start l.count 0
    ∙ window-mod klog_cap l.ring (start + 0) (oldest l) l.count (omega arith)

-- The entry that a call of `klog` makes.
abbrev pub entry : (now level : ℕ) → List ℕ → Entry
entry now level msg = record {
  ticks = u32 now;
  level = level;
  msg = k_strcpy msg (klog_msglen - 1);
}

pub klog-IsValid :
    (now level : ℕ) (msg : List ℕ) (l : Log) → IsValid l → IsValid (klog now level msg l)
unfolding klog
klog-IsValid now level msg l v =
    let c = v.count_in in record { write_in = omega arith; count_in = ground arith }

klog-count : (l : Log) → IsValid l → length (klog_dump l) ≡ l.count
klog-count l v = ap length (klog_dump-window l v) ∙ length-window klog_cap l.ring (oldest l) l.count

-- A write to the slot behind a window that is not the whole ring.
window-append :
    (ring : ℕ → Entry) (h n w : ℕ) (e : Entry)
    → n < klog_cap
    → (h + n) % klog_cap ≡ w
    → window klog_cap (update ring w e) h (suc n) ≡ window klog_cap ring h n ++ (e ∷ [])
window-append ring h n w e l at =
    window-snoc klog_cap (update ring w e) h n
    ∙ ap₂ (λ (xs : List Entry) (x : Entry). xs ++ (x ∷ []))
        (window-update_ne klog_cap ring h n w e λ j k. omega arith)
        (ap (λ k. update ring w e k) at ∙ update_same ring w e)

klog_room :
    (now level : ℕ) (msg : List ℕ) (l : Log)
    → IsValid l
    → l.count < klog_cap
    → klog_dump (klog now level msg l) ≡ klog_dump l ++ (entry now level msg ∷ [])
unfolding klog
klog_room now level msg l v room =
    let l' = klog now level msg l in
    let w = v.write_in in
    let more : l'.count ≡ suc l.count = rw (lt→ltb l.count klog_cap room) (omega arith) in
    klog_dump-window l' (klog-IsValid now level msg l v)
    ∙ (ap (λ n. window klog_cap l'.ring (l'.write + klog_cap - n) n) more
        ∙ (window-mod klog_cap l'.ring (l'.write + klog_cap - suc l.count) (oldest l) (suc l.count)
              (omega arith)
            ∙ (window-append l.ring (oldest l) l.count (l.write % klog_cap) (entry now level msg)
                  room (omega arith)
                ∙ ap (λ (xs : List Entry). xs ++ (entry now level msg ∷ []))
                    (sym (klog_dump-window l v)))))

klog_full :
    (now level : ℕ) (msg : List ℕ) (l : Log)
    → IsValid l
    → l.count ≡ klog_cap
    → klog_dump (klog now level msg l) ≡ drop 1 (klog_dump l) ++ (entry now level msg ∷ [])
unfolding klog
klog_full now level msg l v full =
    let l' = klog now level msg l in
    let w = v.write_in in
    let e = entry now level msg in
    let same : l'.count ≡ klog_cap =
      if_false _ _ _ (le→ltb l.count klog_cap (omega arith)) ∙ full in
    klog_dump-window l' (klog-IsValid now level msg l v)
    ∙ (ap (λ n. window klog_cap l'.ring (l'.write + klog_cap - n) n) same
        ∙ (window-mod klog_cap l'.ring (l'.write + klog_cap - klog_cap) (suc l.write) klog_cap
              (omega arith)
            ∙ (window-append l.ring (suc l.write) 2047 (l.write % klog_cap) e (omega arith)
                  (omega arith)
                ∙ ap (λ (xs : List Entry). xs ++ (e ∷ [])) (sym behind))))
  where
    behind : drop 1 (klog_dump l) ≡ window klog_cap l.ring (suc l.write) 2047
    behind =
        ap (λ (xs : List Entry). drop 1 xs)
          (klog_dump-window l v
            ∙ (ap (λ n. window klog_cap l.ring (l.write + klog_cap - n) n) full
                ∙ window-mod klog_cap l.ring (l.write + klog_cap - klog_cap) l.write klog_cap
                    (omega arith)))

-- The last 2048 of a list.
abbrev pub latest : List Entry → List Entry
latest xs = drop (length xs - klog_cap) xs

pub klog-latest :
    (now level : ℕ) (msg : List ℕ) (l : Log)
    → IsValid l
    → klog_dump (klog now level msg l) ≡ latest (klog_dump l ++ (entry now level msg ∷ []))
klog-latest now level msg l v =
    let e = entry now level msg in
    let c = v.count_in in
    let counted = length-append (klog_dump l) (e ∷ []) in
    let n = klog-count l v in
    elim (Bool-cases (ltb l.count klog_cap)) [
      | inl room ↦
          let none_lost : length (klog_dump l ++ (e ∷ [])) - klog_cap ≡ 0 =
            omega (arith, ltb→lt l.count klog_cap room) in
          klog_room now level msg l v (ltb→lt l.count klog_cap room)
          ∙ sym (ap (λ k. drop k (klog_dump l ++ (e ∷ []))) none_lost)
      | inr full ↦
          let at_cap : l.count ≡ klog_cap = ground arith in
          let one_lost : length (klog_dump l ++ (e ∷ [])) - klog_cap ≡ 1 = omega arith in
          klog_full now level msg l v at_cap
          ∙ (sym (drop-append 1 (klog_dump l) (e ∷ []) (omega arith))
              ∙ sym (ap (λ k. drop k (klog_dump l ++ (e ∷ []))) one_lost))
    ]

pub record Call : Type 0 where
  pub now : ℕ
  pub level : ℕ
  pub msg : List ℕ

-- Calls of `klog`, the first one first.
abbrev pub klog_all : List Call → Log → Log
klog_all [] l = l
klog_all (c ∷ cs) l = klog_all cs (klog c.now c.level c.msg l)

abbrev pub entries : List Call → List Entry
entries [] = []
entries (c ∷ cs) = entry c.now c.level c.msg ∷ entries cs

latest-latest : (xs ys : List Entry) → latest (latest xs ++ ys) ≡ latest (xs ++ ys)
latest-latest xs ys =
    let n = length xs - klog_cap in
    let zs = xs ++ ys in
    let left = length-drop n zs in
    let both = length-append xs ys in
    let total : n + (length (drop n zs) - klog_cap) ≡ length zs - klog_cap = omega arith in
    ap latest (sym (drop-append n xs ys (omega arith)))
    ∙ (drop-drop (length (drop n zs) - klog_cap) n zs ∙ ap (λ k. drop k zs) total)

-- Whatever is logged, the dump prints the latest 2048 of the entries that it would have printed
-- before and those logged since, the oldest first.
pub klog_all_lem :
    (calls : List Call) (l : Log)
    → IsValid l
    → klog_dump (klog_all calls l) ≡ latest (klog_dump l ++ entries calls)
klog_all_lem [] l v =
    let c = v.count_in in
    let n = klog-count l v in
    let k : length (klog_dump l) - klog_cap ≡ 0 = omega arith in
    sym (ap latest (append-nil (klog_dump l)) ∙ ap (λ k. drop k (klog_dump l)) k)
klog_all_lem (c ∷ cs) l v =
    let e = entry c.now c.level c.msg in
    klog_all_lem cs (klog c.now c.level c.msg l) (klog-IsValid c.now c.level c.msg l v)
    ∙ (ap (λ xs. latest (xs ++ entries cs)) (klog-latest c.now c.level c.msg l v)
        ∙ (latest-latest (klog_dump l ++ (e ∷ [])) (entries cs)
            ∙ ap latest (append_assoc (klog_dump l) (e ∷ []) (entries cs))))
