-- ===== src/Sip/Inet/RoundTrip.antt =====
-- Addresses of src/base.cpp that are converted from the system's form and back.
use sipster.Base.{
  take_all, ℕ, zero, suc, ◌≤◌, ◌<◌, ◌≡◌, refl, ap, arith, [], ◌∷◌, ◌++◌, Bytes, length, take,
  replicate,
}
use sipster.Sip.Inet.{
  InetAddressType, ipv4, ipv6, type_of_family, family_of_type, SockAddr, swap_bytes, address_size,
  sockaddr_to_sipster, sipster_to_sockaddr,
}

take-take-append :
    (k n : ℕ) (xs zs : Bytes) → length xs ≡ k → k ≤ n → take k (take n (xs ++ zs)) ≡ xs
take-take-append zero n [] zs e h = refl
take-take-append zero n (x ∷ xs) zs e h = absurd (omega arith)
take-take-append (suc k) n [] zs e h = absurd (omega arith)
take-take-append (suc k) zero (x ∷ xs) zs e h = absurd (omega arith)
take-take-append (suc k) (suc n) (x ∷ xs) zs e h =
    ap (◌∷◌ x) (take-take-append k n xs zs (omega arith) (omega arith))

swap_bytes-swap_bytes : (n : ℕ) → n < 65536 → swap_bytes (swap_bytes n) ≡ n
swap_bytes-swap_bytes n h = omega arith

address_size_le : (t : InetAddressType) → address_size t ≤ 16
address_size_le ipv4 = omega arith
address_size_le ipv6 = omega arith

-- A socket address with a port of sixteen bits, and as many address bytes as the structure that its
-- family is read by, comes back from its conversion with its port and its address, and with no flow
-- information and no scope; a family other than AF_INET comes back as AF_INET6.
pub sipster_to_sockaddr-sockaddr_to_sipster :
    (a : SockAddr)
    → a.port < 65536
    → length a.address ≡ address_size (type_of_family a.family)
    → sipster_to_sockaddr (sockaddr_to_sipster a)
      ≡ record a { family = family_of_type (type_of_family a.family); flow_info = 0; scope_id = 0 }
unfolding sipster_to_sockaddr sockaddr_to_sipster
sipster_to_sockaddr-sockaddr_to_sipster a small exact =
    let t = type_of_family a.family in
    let whole = take_all (address_size t) a.address (omega arith) in
    let cut =
      take-take-append (address_size t) 16 a.address (replicate 16 0) exact (address_size_le t) in
    rw (swap_bytes-swap_bytes a.port small, whole, cut) refl
