-- ===== src/Libc.antt =====
-- The C library of user programs: iklibc/src/string.c and stdlib.c. Memory is a function from
-- addresses to bytes.
pub mod Memory
pub mod Text
pub mod Copies
pub mod Numbers
pub mod Malloc
mod Tests
