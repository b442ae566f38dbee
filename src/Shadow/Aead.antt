-- ===== src/Shadow/Aead.antt =====
-- Go's `cipher.AEAD`, which the program takes from its cryptographic libraries.
use miniproxygo.Common.{ℕ, ◌+◌, ◌≡◌, Option, some, List, length}

-- `seal nonce plain` is `Seal(nil, nonce, plain, nil)`, and `open_box nonce box` is
-- `Open(nil, nonce, box, nil)`, with `none` for an authentication failure.
pub record Aead : Type 0 where
  pub nonce_size : ℕ
  pub overhead : ℕ
  pub seal : List ℕ → List ℕ → List ℕ
  pub open_box : List ℕ → List ℕ → Option (List ℕ)

-- What Go's documentation promises for a nonce of the right size: `Open` undoes `Seal`, and a box is
-- `Overhead()` bytes longer than its plaintext.
pub record IsAead (a : Aead) : Type 0 where
  pub open-seal :
      (nonce plain : List ℕ)
      → length nonce ≡ a.nonce_size
      → a.open_box nonce (a.seal nonce plain) ≡ some plain
  pub length-seal :
      (nonce plain : List ℕ)
      → length nonce ≡ a.nonce_size
      → length (a.seal nonce plain) ≡ length plain + a.overhead
