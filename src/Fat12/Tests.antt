-- ===== src/Fat12/Tests.antt =====
-- The theorems on the FAT12 table at concrete tables.
use iron_kernel.Prelude.{ℕ, ◌≡◌, refl, arith, ◌==◌, if◌then◌else◌}
use iron_kernel.Fat12.{fat12_next_cluster}
use iron_kernel.Fat12.Table.{AreBytes}

-- cluster 2 leads to 3, and 3 ends its chain
abbrev table : ℕ → ℕ
table i = if i == 3 then 3 else if i == 4 then 0xF0 else if i == 5 then 0xFF else 0

table-AreBytes : AreBytes table
table-AreBytes i = ground arith

second : fat12_next_cluster table 2 ≡ 3
unfolding fat12_next_cluster
second = refl

last : fat12_next_cluster table 3 ≡ 0xFFF
unfolding fat12_next_cluster
last = refl
