-- ===== src/Dns/Tests.antt =====
-- Runs of the resolver, and the theorems at concrete names.
use iron_kernel.Prelude.{
  ℕ, zero, suc, ◌+◌, ◌≤◌, ◌≡◌, refl, some, List, [], ◌∷◌, arith, ◌==◌, if◌then◌else◌, get_or,
  length,
}
use iron_kernel.Dns.Reverse.{octet, arpa, ptr_name, dns_expand_name, dns_expand_name_ends}
use iron_kernel.Dns.{label, behind, encode, dns_encode_name, dns_skip_name, addresses}
use iron_kernel.Dns.Names.{Holds, dns_skip_name-dns_encode_name, addresses_bound}

-- "ab.c"
abbrev host : List ℕ
host = b'a' ∷ b'b' ∷ b'.' ∷ b'c' ∷ []

encoded : dns_encode_name host ≡ 2 ∷ b'a' ∷ b'b' ∷ 1 ∷ b'c' ∷ 0 ∷ []
unfolding dns_encode_name encode label behind
encoded = refl

abbrev buf : ℕ → ℕ
buf i = get_or (9 ∷ 2 ∷ b'a' ∷ b'b' ∷ 1 ∷ b'c' ∷ 0 ∷ 5 ∷ []) i 0

holds : Holds buf 1 (dns_encode_name host)
unfolding dns_encode_name encode label behind
holds zero b = refl
holds (suc zero) b = refl
holds (suc (suc zero)) b = refl
holds (suc (suc (suc zero))) b = refl
holds (suc (suc (suc (suc zero)))) b = refl
holds (suc (suc (suc (suc (suc zero))))) b = refl
holds (suc (suc (suc (suc (suc (suc i)))))) b = absurd (omega arith)

dns_skip_name-dns_encode_name_example : dns_skip_name buf 1 8 ≡ 1 + length (dns_encode_name host)
dns_skip_name-dns_encode_name_example =
    dns_skip_name-dns_encode_name host buf 1 8
      (unfold label behind in (omega arith, omega arith, (omega arith, omega arith, tt))) holds
      (unfold dns_encode_name encode label behind in omega arith) (omega arith)

three_at_most : length (addresses 3 buf 8) ≤ 3
three_at_most = addresses_bound 3 buf 8

-- a pointer that leads to itself
abbrev circle : ℕ → ℕ
circle i = if i == 12 then 0xC0 else 12

dns_expand_name_ends_example :
    (text : List ℕ) × (dns_expand_name circle 12 14 64 ≡ some text) × (length text + 1 ≤ 64)
dns_expand_name_ends_example = dns_expand_name_ends circle 12 14 64 (omega arith) (omega arith)

-- 10.0.2.103
reversed :
    ptr_name (record { ip0 = 10; ip1 = 0; ip2 = 2; ip3 = 103 })
    ≡ b'1' ∷ b'0' ∷ b'3' ∷ b'.' ∷ b'2' ∷ b'.' ∷ b'0' ∷ b'.' ∷ b'1' ∷ b'0' ∷ b'.' ∷ arpa
unfolding ptr_name octet
reversed = refl
