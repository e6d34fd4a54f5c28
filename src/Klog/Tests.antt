-- ===== src/Klog/Tests.antt =====
-- Runs of the kernel log, and the theorems at concrete logs.
use iron_kernel.Prelude.{ℕ, ◌+◌, ◌^◌, ◌≡◌, refl, List, [], ◌∷◌, ◌++◌, arith}
use iron_kernel.Klog.{Log, klog_dump, fmt_uint_w, fmt_uint_z}
use iron_kernel.Klog.Ring.{IsValid, Call, klog_all, entries, latest, klog_all_lem}

-- a full ring whose next slot is the last one
abbrev full : Log
full = record { ring = λ i. record { ticks = i; level = 0; msg = [] }; write = 2047; count = 2048 }

full-IsValid : IsValid full
full-IsValid = record { write_in = omega arith; count_in = omega arith }

abbrev calls : List Call
calls =
    record { now = 100; level = 1; msg = b'a' ∷ 0 ∷ b'b' ∷ [] }
    ∷ record { now = 2 ^ 32 + 7; level = 2; msg = b'c' ∷ 0 ∷ [] }
    ∷ []

klog_all_lem_example : klog_dump (klog_all calls full) ≡ latest (klog_dump full ++ entries calls)
klog_all_lem_example = klog_all_lem calls full full-IsValid

-- blanks in front of one, zeros in front of the other
blank_and_zero : fmt_uint_w 12 4 ++ fmt_uint_z 5 2 ≡ b' ' ∷ b' ' ∷ b'1' ∷ b'2' ∷ b'0' ∷ b'5' ∷ []
unfolding fmt_uint_w fmt_uint_z
blank_and_zero = refl

abbrev hello : List ℕ
hello = b'h' ∷ b'e' ∷ b'l' ∷ b'l' ∷ b'o' ∷ []
