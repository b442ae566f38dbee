-- ===== src/Shadow/Toy.antt =====
-- Ciphers for the runs: they protect nothing, but keep the laws.
use miniproxygo.Common.{
  ◌+◌, true, ℕ, ◌≡◌, refl, List, [], ◌∷◌, get_or, take, replicate, length, ◌%◌, if◌then◌else◌, ◌==◌,
  Option, none, some, arith,
}
use miniproxygo.Io.{ok}
use miniproxygo.Internal.SaltFilter.{Salts}
use miniproxygo.Internal.Toy.{ring}
use miniproxygo.Shadow.Aead.{Aead, IsAead}
use miniproxygo.Shadow.Reader.Authentic.{Shrinks}
use miniproxygo.Shadow.Nonce.{zeros, increment}
use miniproxygo.Shadow.Frame.{box, frames}
use miniproxygo.Shadow.RoundTrip.{Stream}
use miniproxygo.Shadow.Cipher.{Cipher, MetaCipher, cipher_of, aes_gcm, Crypto}

-- A cipher for tests: a box is the first byte of the nonce and the plaintext.
abbrev pub toy_open : List ℕ → List ℕ → Option (List ℕ)
toy_open nonce [] = none
toy_open nonce (t ∷ p) = if t == get_or nonce 0 0 then some p else none

abbrev pub toy : Aead
toy = record {
  nonce_size = 1;
  overhead = 1;
  seal = λ nonce p. get_or nonce 0 0 ∷ p;
  open_box = toy_open;
}

toy_open-seal : (nonce p : List ℕ) → toy_open nonce (get_or nonce 0 0 ∷ p) ≡ some p
toy_open-seal nonce p = ground arith

pub toy-IsAead : IsAead toy
toy-IsAead = record {
  open-seal = λ nonce p h. toy_open-seal nonce p;
  length-seal = λ nonce p h. omega arith;
}

toy_open-shrinks :
    (nonce box plain : List ℕ) → toy_open nonce box ≡ some plain → length plain + 1 ≡ length box
toy_open-shrinks nonce [] plain e = cc
toy_open-shrinks nonce (t ∷ p) plain e = ground arith

pub toy-Shrinks : Shrinks toy
toy-Shrinks nonce box plain e = toy_open-shrinks nonce box plain e

-- Libraries that make this cipher from any key; a key is the start of the salt.
abbrev pub toy_crypto : Crypto (List ℕ)
toy_crypto = record {
  hkdf_sha1 = λ secret salt info n. take n salt;
  new_cipher = λ key. ok key;
  new_gcm = λ block. ok toy;
  new_chacha = λ key. ok toy;
}

-- A hash that tells texts of different lengths apart.
abbrev pub toy_hash : List ℕ → List ℕ
toy_hash x = replicate 16 (length x % 256)

-- The record for the payload 7, 8 under the first nonce.
pub toy-Stream : Stream toy (zeros 1) (7 ∷ 8 ∷ []) (0 ∷ 0 ∷ 2 ∷ 1 ∷ 7 ∷ 8 ∷ [])
unfolding frames box increment
toy-Stream = record {
  records = (7 ∷ 8 ∷ []) ∷ [];
  payloads = omega arith;
  same_bytes = refl;
  same_out = refl;
}

abbrev pub meta : MetaCipher
meta = record { psk = replicate 16 7; make_aead = aes_gcm toy_crypto }

abbrev pub ciph : Cipher
ciph = cipher_of toy_crypto meta

abbrev pub salt : List ℕ
salt = replicate 16 5

-- The filter once the salt has been sent.
abbrev pub salted : Salts (List (List ℕ))
salted = record {
  saltfilter = some (record ring { entry_counter = 1; slots = (salt ∷ []) ∷ [] ∷ [] ∷ [] });
  initialized = true;
}
