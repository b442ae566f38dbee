-- ===== src/Core/Kdf.antt =====
-- `kdf` of m_core/cipher.go: a key of any length from a password, by rounds of a hash.
use miniproxygo.Common.{
  ℕ, zero, suc, ◌+◌, ◌-◌, ◌*◌, ◌<◌, ◌≡◌, sym, ap, ◌∙◌, inl, inr, Bool-cases, Option, none, some,
  List, [], ◌++◌, length, take, drop, ltb, if◌then◌else◌, ltb→lt, ltb→ge, length-append,
  length-take, take-append_le, drop-append, append_assoc, arith,
}

-- `h.Size()` for MD5
abbrev pub hash_size : ℕ
hash_size = 16

-- What Go's documentation says of `crypto/md5`.
abbrev pub IsHash : (List ℕ → List ℕ) → Type 0
IsHash md5 = (x : List ℕ) → length (md5 x) ≡ hash_size

module _ (md5 : List ℕ → List ℕ) where
  -- The loop: a round hashes `prev` and the password, and appends the hash to `b`.
  unfoldable pub kdf_loop : ℕ → ℕ → List ℕ → List ℕ → List ℕ → Option (List ℕ)
  kdf_loop zero key_len password b prev = none
  kdf_loop (suc fuel) key_len password b prev =
      let b' = b ++ md5 (prev ++ password) in
      let more = kdf_loop fuel key_len password b' (drop (length b' - hash_size) b') in
      if ltb (length b) key_len then more else some (take key_len b)

  -- A round makes `b` longer, so `keyLen` rounds and the last test of the loop are enough.
  unfoldable pub kdf : List ℕ → ℕ → Option (List ℕ)
  kdf password key_len = kdf_loop (suc key_len) key_len password [] []

  -- The key material of `EVP_BytesToKey`, apart from the routine: each block is the hash of the one
  -- before it and the password.
  abbrev pub derive : List ℕ → List ℕ → ℕ → List ℕ
  derive password prev zero = []
  derive password prev (suc k) =
      md5 (prev ++ password) ++ derive password (md5 (prev ++ password)) k

  module _ (size : IsHash md5) where
    length-derive :
        (password prev : List ℕ) (k : ℕ) → length (derive password prev k) ≡ hash_size * k
    length-derive password prev zero = omega arith
    length-derive password prev (suc k) = omega (
      arith,
      length-append (md5 (prev ++ password)) (derive password (md5 (prev ++ password)) k),
      size (prev ++ password),
      length-derive password (md5 (prev ++ password)) k,
    )

    kdf_loop-derive :
        (fuel key_len : ℕ) (password b prev : List ℕ)
        → 0 < fuel
        → key_len < length b + fuel
        → kdf_loop fuel key_len password b prev
          ≡ some (take key_len (b ++ derive password prev fuel))
    unfolding kdf_loop
    kdf_loop-derive zero key_len password b prev pos h = absurd (ground arith)
    kdf_loop-derive (suc fuel) key_len password b prev pos h =
        let hash = md5 (prev ++ password) in
        let sized = size (prev ++ password) in
        let tail : drop (length (b ++ hash) - hash_size) (b ++ hash) ≡ hash =
          drop-append _ b hash (omega (arith, length-append b hash)) in
        elim (Bool-cases (ltb (length b) key_len)) [
          | inl short ↦ rw short (
              ap (λ p. kdf_loop fuel key_len password (b ++ hash) p) tail
              ∙ kdf_loop-derive fuel key_len password (b ++ hash) hash
                  (omega (arith, ltb→lt _ _ short)) (omega (arith, length-append b hash))
              ∙ ap (λ l. some (take key_len l)) (append_assoc b hash (derive password hash fuel)))
          | inr long ↦ rw long (ap some (sym (take-append_le key_len b _ (ltb→ge _ _ long))))
        ]

    -- `kdf` terminates for every password and length, with the first `keyLen` bytes of the chained
    -- hashes, and there are that many.
    pub kdf-derive :
        (password : List ℕ) (key_len : ℕ)
        → (kdf password key_len ≡ some (take key_len (derive password [] (suc key_len))))
          × (length (take key_len (derive password [] (suc key_len))) ≡ key_len)
    unfolding kdf
    kdf-derive password key_len = (
      kdf_loop-derive (suc key_len) key_len password [] [] (omega arith) (omega arith),
      omega (
        arith,
        length-take key_len (derive password [] (suc key_len)),
        length-derive password [] (suc key_len),
      ),
    )
