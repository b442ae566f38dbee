-- ===== src/Core/Runs.antt =====
-- Runs of m_core/cipher.go, and its theorems at concrete inputs.
use miniproxygo.Common.{
  ℕ, ◌≡◌, ◌⊎◌, refl, some, List, [], length, take, replicate, ◌%◌, codes, to_upper,
  length-replicate,
}
use miniproxygo.Io.{ok}
use miniproxygo.Shadow.Toy.{toy_crypto, toy_hash}
use miniproxygo.Shadow.Cipher.{MetaCipher, aesgcm, aes_gcm}
use miniproxygo.Core.Kdf.{kdf, kdf_loop, derive, IsHash, kdf-derive}
use miniproxygo.Core.Pick.{
  Choice, aead_cipher, pick_cipher, aead_list, full_name, pick_cipher-derive, pick_cipher_sound,
}

pub toy_hash-IsHash : IsHash toy_hash
toy_hash-IsHash x = length-replicate 16 (length x % 256)

kdf-derive_example :
    (kdf toy_hash (codes "password") 20 ≡ some (take 20 (derive toy_hash (codes "password") [] 21)))
    × (length (take 20 (derive toy_hash (codes "password") [] 21)) ≡ 20)
kdf-derive_example = kdf-derive toy_hash toy_hash-IsHash (codes "password") 20

-- Two rounds: the second one hashes the first hash and the password.
two_rounds :
    kdf toy_hash (codes "password") 18 ≡ some (take 18 (derive toy_hash (codes "password") [] 2))
unfolding kdf kdf_loop
two_rounds = refl

abbrev pub gcm128 : Choice
gcm128 = record { key_size = 16; new = aesgcm toy_crypto }

-- An older name, in lower case.
pub old_name :
    aead_list toy_crypto toy_hash (full_name (to_upper (codes "aes-128-gcm"))) ≡ some gcm128
unfolding aead_list
old_name = refl

pick_cipher-derive_example :
    (c : MetaCipher) × (pick_cipher toy_crypto toy_hash (codes "aes-128-gcm") [] (codes "password")
      ≡ ok (aead_cipher c))
    × (c.psk ≡ take 16 (derive toy_hash (codes "password") [] 17))
    × (length c.psk ≡ 16)
pick_cipher-derive_example =
    pick_cipher-derive toy_crypto toy_hash toy_hash-IsHash (codes "aes-128-gcm") (codes "password")
      gcm128 refl old_name

abbrev own_key : List ℕ
own_key = replicate 16 7

own_key_picked :
    pick_cipher toy_crypto toy_hash (codes "AES-128-GCM") own_key []
    ≡ ok (aead_cipher (record { psk = own_key; make_aead = aes_gcm toy_crypto }))
unfolding pick_cipher aead_list aesgcm
own_key_picked = refl

pick_cipher_sound_example :
    ((length own_key ≡ 16) ⊎ (length own_key ≡ 32)) × ((own_key ≡ []) ⊎ (own_key ≡ own_key))
pick_cipher_sound_example =
    pick_cipher_sound toy_crypto toy_hash toy_hash-IsHash (codes "AES-128-GCM") own_key []
      (record { psk = own_key; make_aead = aes_gcm toy_crypto }) own_key_picked
