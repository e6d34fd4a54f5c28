-- ===== src/Klog.antt =====
-- The kernel log: src/kernel/klog.c. A ring of 2048 entries, each a time, a level and a message of at
-- most 119 characters.
pub mod Ring
pub mod Format
mod Tests
use iron_kernel.Prelude.{
  ℕ, zero, suc, ◌+◌, ◌-◌, ◌*◌, ◌/◌, ◌%◌, ◌^◌, Bool, true, false, List, [], ◌∷◌, ◌++◌, ltb, ◌==◌,
  if◌then◌else◌, update, u32, replicate, min,
}

-- `KLOG_CAP`
abbrev pub klog_cap : ℕ
klog_cap = 2048

-- `KLOG_MSGLEN`
abbrev pub klog_msglen : ℕ
klog_msglen = 120

-- `klog_entry_t`; a message is the characters before its 0.
pub record Entry : Type 0 where
  pub ticks : ℕ
  pub level : ℕ
  pub msg : List ℕ

-- `klog_ring`, `klog_write` and `klog_count`
pub record Log : Type 0 where
  pub ring : ℕ → Entry
  pub write : ℕ
  pub count : ℕ

-- `k_strcpy(dst, src, max)` with `left` = `max - 1` characters of room: what `dst` holds before its
-- 0. The list is the bytes at `src`, which may go on behind the 0.
unfoldable pub k_strcpy : (src : List ℕ) → (left : ℕ) → List ℕ
k_strcpy src zero = []
k_strcpy [] (suc left) = []
k_strcpy (c ∷ src) (suc left) = let rest = k_strcpy src left in if c == 0 then [] else c ∷ rest

-- The body of `klog` between `cli` and `sti`; `x & (KLOG_CAP - 1)` is the remainder.
pub klog : (now level : ℕ) → (msg : List ℕ) → Log → Log
klog now level msg l = record {
  ring =
      update l.ring (l.write % klog_cap)
        (record { ticks = u32 now; level = level; msg = k_strcpy msg (klog_msglen - 1) });
  write = (l.write + 1) % klog_cap;
  count = if ltb l.count klog_cap then l.count + 1 else l.count;
}

-- `n` turns of the loop of `klog_dump`: the entries in the order in which it prints them
dump_loop : Log → (start n i : ℕ) → List Entry
dump_loop l start zero i = []
dump_loop l start (suc n) i = l.ring ((start + i) % klog_cap) ∷ dump_loop l start n (i + 1)

-- The unsigned difference `klog_write - klog_count` wraps.
pub klog_dump : Log → List Entry
klog_dump l = dump_loop l (u32 (l.write + 2 ^ 32 - l.count) % klog_cap) l.count 0

-- The loop of `fmt_uint_w`, from the last of `i` places: the text of those places.
unfoldable pub fmt_uint_w : (v i : ℕ) → List ℕ
fmt_uint_w v zero = []
fmt_uint_w v (suc i) =
    let rest = fmt_uint_w (v / 10) i in
    let digit = b'0' + v % 10 in
    if v / 10 == 0 then replicate i b' ' ++ (digit ∷ []) else rest ++ (digit ∷ [])

-- The loop of `fmt_uint_z`
unfoldable pub fmt_uint_z : (v i : ℕ) → List ℕ
fmt_uint_z v zero = []
fmt_uint_z v (suc i) = fmt_uint_z (v / 10) i ++ ((b'0' + v % 10) ∷ [])

-- "[SSSS.CC] ", as `klog` and `klog_dump` build it
pub timestamp : (ticks : ℕ) → List ℕ
timestamp ticks =
    b'['
    ∷ (fmt_uint_w (ticks / 100) 4 ++ (b'.' ∷ (fmt_uint_z (ticks % 100) 2 ++ (b']' ∷ b' ' ∷ []))))
