-- ===== src/Scheduler/Addresses.antt =====
-- When two machines of the private network share an address.
use mikrom.Prelude.{ℕ, zero, suc, ◌<◌, List, ◌≡◌, ◌↔◌, refl, ap, arith, get_or}
use mikrom.Scheduler.SixPn.{generate_vpc_prefix, allocate_vm_ipv6, hash_byte}

-- Two digests have the same first bytes.
abbrev pub Agree : ℕ → List ℕ → List ℕ → Type 0
Agree n a b = (i : ℕ) → i < n → hash_byte a i ≡ hash_byte b i

module _ (user1 user2 job1 job2 : List ℕ) where
  abbrev SameAddress : Type 0
  SameAddress =
      allocate_vm_ipv6 (generate_vpc_prefix user1) job1
      ≡ allocate_vm_ipv6 (generate_vpc_prefix user2) job2

  octet :
      SameAddress
      → (i : ℕ)
      → get_or (allocate_vm_ipv6 (generate_vpc_prefix user1) job1) i 0
        ≡ get_or (allocate_vm_ipv6 (generate_vpc_prefix user2) job2) i 0
  octet e i = ap (λ (address : List ℕ). get_or address i 0) e

  same_users : SameAddress → Agree 4 user1 user2
  unfolding generate_vpc_prefix allocate_vm_ipv6
  same_users e zero h = octet e 1
  same_users e (suc zero) h = octet e 2
  same_users e (suc (suc zero)) h = octet e 3
  same_users e (suc (suc (suc zero))) h = octet e 4
  same_users e (suc (suc (suc (suc i)))) h = absurd (omega (arith, h))

  same_jobs : SameAddress → Agree 3 job1 job2
  unfolding generate_vpc_prefix allocate_vm_ipv6
  same_jobs e zero h = octet e 5
  same_jobs e (suc zero) h = octet e 6
  same_jobs e (suc (suc zero)) h = octet e 7
  same_jobs e (suc (suc (suc i))) h = absurd (omega (arith, h))

  equal_octets : Agree 4 user1 user2 → Agree 3 job1 job2 → SameAddress
  unfolding generate_vpc_prefix allocate_vm_ipv6
  equal_octets u j =
      rw
        (
          u 0 (omega arith),
          u 1 (omega arith),
          u 2 (omega arith),
          u 3 (omega arith),
          j 0 (omega arith),
          j 1 (omega arith),
          j 2 (omega arith),
        )
        refl

-- Two machines get the same address exactly if the digests of their tenants agree in the first four bytes
-- and those of their jobs in the first three.
pub allocate_vm_ipv6_collides :
    (user1 user2 job1 job2 : List ℕ)
    → (allocate_vm_ipv6 (generate_vpc_prefix user1) job1
        ≡ allocate_vm_ipv6 (generate_vpc_prefix user2) job2)
      ↔ (Agree 4 user1 user2 × Agree 3 job1 job2)
allocate_vm_ipv6_collides user1 user2 job1 job2 = (
  λ e. (same_users user1 user2 job1 job2 e, same_jobs user1 user2 job1 job2 e),
  λ (u, j). equal_octets user1 user2 job1 job2 u j,
)
