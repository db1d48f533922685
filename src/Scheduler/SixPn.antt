-- ===== src/Scheduler/SixPn.antt =====
-- Addresses in the private network: mikrom-proto/src/sixpn.rs. An address is its sixteen octets.
use mikrom.Prelude.{ℕ, List, [], ◌∷◌, get_or, set}

abbrev pub hash_byte : List ℕ → ℕ → ℕ
hash_byte digest i = get_or digest i 0

-- `SixPn::generate_vpc_prefix`, from the digest of the user's identifier.
unfoldable pub generate_vpc_prefix : List ℕ → List ℕ
generate_vpc_prefix digest =
    0xfd
    ∷ hash_byte digest 0
    ∷ hash_byte digest 1
    ∷ hash_byte digest 2
    ∷ hash_byte digest 3
    ∷ 0
    ∷ 0
    ∷ 0
    ∷ 0
    ∷ 0
    ∷ 0
    ∷ 0
    ∷ 0
    ∷ 0
    ∷ 0
    ∷ 0
    ∷ []

-- `octets[i] = b`
abbrev pub set_octet : List ℕ → ℕ → ℕ → List ℕ
set_octet os i b = set os i b

-- `SixPn::allocate_vm_ipv6`, from the digest of the job's identifier.
unfoldable pub allocate_vm_ipv6 : List ℕ → List ℕ → List ℕ
allocate_vm_ipv6 vpc_prefix digest =
    let octets = set_octet vpc_prefix 5 (hash_byte digest 0) in
    let octets = set_octet octets 6 (hash_byte digest 1) in
    let octets = set_octet octets 7 (hash_byte digest 2) in set_octet octets 15 1
