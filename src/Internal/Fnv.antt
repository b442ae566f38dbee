-- ===== src/Internal/Fnv.antt =====
-- `doubleFNV` of m_internal/bloomring.go, the hash that it gives the Bloom filter: FNV-1 and FNV-1a with
-- 64 bits, as Go's `hash/fnv` has them.
use Prim.Native.Nat.{bit_xor}
use miniproxygo.Common.{ℕ, ◌*◌, ◌%◌, ◌^◌, ◌≡◌, refl, List, [], ◌∷◌}

abbrev offset : ℕ
offset = 14695981039346656037

abbrev prime : ℕ
prime = 1099511628211

-- `fnv.New64()` and its `Write`: the product comes first, and then the byte.
unfoldable fnv64 : ℕ → List ℕ → ℕ
fnv64 hash [] = hash
fnv64 hash (b ∷ bs) = fnv64 (bit_xor (hash * prime % 2 ^ 64) b) bs

-- `fnv.New64a()` and its `Write`
unfoldable fnv64a : ℕ → List ℕ → ℕ
fnv64a hash [] = hash
fnv64a hash (b ∷ bs) = fnv64a (bit_xor hash b * prime % 2 ^ 64) bs

-- `doubleFNV`
unfoldable pub double_fnv : List ℕ → ℕ × ℕ
unfolding fnv64 fnv64a
double_fnv b = (fnv64 offset b, fnv64a offset b)

-- The published values for the empty text and for `a`.
of_nothing : double_fnv [] ≡ (14695981039346656037, 14695981039346656037)
unfolding double_fnv fnv64 fnv64a
of_nothing = refl

of_letter : double_fnv (97 ∷ []) ≡ (12638153115695167422, 12638187200555641996)
unfolding double_fnv fnv64 fnv64a
of_letter = refl
