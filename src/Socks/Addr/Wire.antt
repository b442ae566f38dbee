-- ===== src/Socks/Addr/Wire.antt =====
-- What an address is, apart from the routines: a host of one of three kinds and a port, and the bytes
-- that RFC 1928 (section 5) gives it.
use miniproxygo.Common.{ℕ, ◌≤◌, ◌≡◌, List, [], ◌∷◌, ◌++◌, length, length-append, arith}

-- The last two fields are the two bytes of the port.
pub data Address : Type 0 where
  domain ipv4 ipv6 : List ℕ → ℕ → ℕ → Address

abbrev pub encode : Address → List ℕ
encode (domain host p q) = 3 ∷ length host ∷ (host ++ p ∷ q ∷ [])
encode (ipv4 ip p q) = 1 ∷ (ip ++ p ∷ q ∷ [])
encode (ipv6 ip p q) = 4 ∷ (ip ++ p ∷ q ∷ [])

-- A name has at most 255 bytes, an IP address 4 or 16.
abbrev pub IsAddress : Address → Type 0
IsAddress (domain host p q) = length host ≤ 255
IsAddress (ipv4 ip p q) = length ip ≡ 4
IsAddress (ipv6 ip p q) = length ip ≡ 16

-- No address is longer than `MaxAddrLen`.
pub length-encode : (x : Address) → IsAddress x → length (encode x) ≤ 259
length-encode (domain host p q) h = omega (arith, length-append host (p ∷ q ∷ []))
length-encode (ipv4 ip p q) h = omega (arith, length-append ip (p ∷ q ∷ []))
length-encode (ipv6 ip p q) h = omega (arith, length-append ip (p ∷ q ∷ []))
