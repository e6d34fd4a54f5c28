-- ===== src/Libc/Tests.antt =====
-- Runs of the C library, and the theorems at concrete memories and numbers.
use iron_kernel.Prelude.{
  ℕ, ◌+◌, ◌≡◌, ◌↔◌, refl, inr, some, List, [], ◌∷◌, arith, ◌==◌, if◌then◌else◌, All,
}
use iron_kernel.Prelude.Int.{ℤ, pos, negsuc}
use iron_kernel.Libc.Memory.{Mem, memmove, memcpy, move_down, block_copy, memmove_lem}
use iron_kernel.Libc.Text.{IsText, strlen, strcmp, strcmp_lem, strlen_lem}
use iron_kernel.Libc.Copies.{strcpy, strncpy, CopyOf, strcpy_lem, strncpy_overruns}
use iron_kernel.Libc.Numbers.{
  digits_loop, skip_blanks, signed, atoll, utoa_loop, utoa, itoa10, atoll-itoa10,
}
use iron_kernel.Libc.Malloc.{malloc_all, IsPlaced, AreApart, malloc_all_lem}

abbrev hello : List ℕ
hello = b'h' ∷ b'i' ∷ []

-- "hi" at 100, and "ho" at 200
abbrev mem : Mem
mem i =
    if i == 100
    then b'h'
    else if i == 101
    then b'i'
    else if i == 102
    then 0
    else if i == 200
    then b'h'
    else if i == 201
    then b'o'
    else if i == 202
    then 0
    else 7

hello-IsText : IsText mem 100 hello
hello-IsText = (refl, omega arith, (refl, omega arith, refl))

ho-IsText : IsText mem 200 (b'h' ∷ b'o' ∷ [])
ho-IsText = (refl, omega arith, (refl, omega arith, refl))

overlapping : memmove 101 100 3 mem 103 ≡ 0
unfolding memmove move_down memcpy
overlapping = refl

memmove_lem_example : memmove 101 100 3 mem 103 ≡ block_copy 101 100 3 mem 103
memmove_lem_example = memmove_lem 101 100 3 mem 103

strcmp_lem_example :
    (d : ℤ) × (strcmp 5 100 200 mem ≡ some d) × ((d ≡ pos 0) ↔ (hello ≡ b'h' ∷ b'o' ∷ []))
strcmp_lem_example =
    strcmp_lem 5 100 200 mem hello (b'h' ∷ b'o' ∷ []) hello-IsText ho-IsText (omega arith)

three_characters : strlen 9 100 mem ≡ some 2
three_characters = strlen_lem 9 100 mem hello hello-IsText (omega arith)

strcpy_lem_example : (mem' : Mem) × (strcpy 9 300 100 mem ≡ some mem') × CopyOf 300 hello mem mem'
strcpy_lem_example = strcpy_lem 9 300 100 mem hello hello-IsText (inr (omega arith)) (omega arith)

strncpy_overruns_example : strncpy 300 100 8 mem (300 + 8) ≡ 0
strncpy_overruns_example =
    strncpy_overruns 300 100 8 mem hello hello-IsText (inr (omega arith)) (omega arith)

written : itoa10 (negsuc 1022) ≡ b'-' ∷ b'1' ∷ b'0' ∷ b'2' ∷ b'3' ∷ []
unfolding itoa10 utoa utoa_loop
written = refl

blanks : atoll (b' ' ∷ b'+' ∷ b'4' ∷ b'2' ∷ b'x' ∷ []) ≡ pos 42
unfolding atoll skip_blanks signed digits_loop
blanks = refl

atoll-itoa10_example : atoll (itoa10 (negsuc 1022)) ≡ negsuc 1022
atoll-itoa10_example = atoll-itoa10 (negsuc 1022) (omega arith)

abbrev sizes : List ℕ
sizes = 100 ∷ 70000 ∷ 3 ∷ []

malloc_all_lem_example : All (IsPlaced 0) (malloc_all sizes 0) × AreApart (malloc_all sizes 0)
malloc_all_lem_example = malloc_all_lem sizes (omega arith)
