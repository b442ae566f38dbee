-- ===== src/Shadow/Cipher.antt =====
-- `metaCipher` of m_shadow/cipher.go: a pre-shared key, and a key of its own for every salt.
use miniproxygo.Common.{ℕ, ◌≤◌, List, length, ltb, if◌then◌else◌, ◌==◌, ◌||◌, codes, arith}
use miniproxygo.Io.{Error, Result, ok, err, and_then}
use miniproxygo.Shadow.Aead.{Aead}

-- What the cryptographic libraries do: `hkdfSHA1` fills a key of the given length, `aes.NewCipher`,
-- `cipher.NewGCM` and `chacha20poly1305.New` make a cipher or report an error.
pub record Crypto (Block : Type 0) : Type 0 where
  pub hkdf_sha1 : List ℕ → List ℕ → List ℕ → ℕ → List ℕ
  pub new_cipher : List ℕ → Result Block
  pub new_gcm : Block → Result Aead
  pub new_chacha : List ℕ → Result Aead

-- The interface `Cipher`, as far as streams and packets use it.
pub record Cipher : Type 0 where
  pub salt_size : ℕ
  pub encrypter : List ℕ → Result Aead
  pub decrypter : List ℕ → Result Aead

pub record MetaCipher : Type 0 where
  pub psk : List ℕ
  pub make_aead : List ℕ → Result Aead

-- `KeySize`
abbrev pub key_size : MetaCipher → ℕ
key_size c = length c.psk

-- `SaltSize`
unfoldable pub salt_size : MetaCipher → ℕ
salt_size c = if ltb 16 (key_size c) then key_size c else 16

-- The bytes of `ss-subkey`.
abbrev pub subkey_info : List ℕ
subkey_info = codes "ss-subkey"

module _ {Block : Type 0} (crypto : Crypto Block) where
  -- `Encrypter`
  unfoldable pub encrypter : MetaCipher → List ℕ → Result Aead
  encrypter c salt = c.make_aead (crypto.hkdf_sha1 c.psk salt subkey_info (key_size c))

  -- `Decrypter`
  unfoldable pub decrypter : MetaCipher → List ℕ → Result Aead
  decrypter c salt = c.make_aead (crypto.hkdf_sha1 c.psk salt subkey_info (key_size c))

  -- A `*metaCipher` as a `Cipher`.
  abbrev pub cipher_of : MetaCipher → Cipher
  cipher_of c = record { salt_size = salt_size c; encrypter = encrypter c; decrypter = decrypter c }

  -- `aesGCM`
  unfoldable pub aes_gcm : List ℕ → Result Aead
  aes_gcm key = and_then (crypto.new_cipher key) crypto.new_gcm

  -- `AESGCM`; the error is `aes.KeySizeError`.
  unfoldable pub aesgcm : List ℕ → Result MetaCipher
  aesgcm psk =
      if length psk == 16 || length psk == 24 || length psk == 32
      then ok (record { psk = psk; make_aead = aes_gcm })
      else err (Error.key_size (length psk))

  -- `Chacha20Poly1305`
  unfoldable pub chacha20_poly1305 : List ℕ → Result MetaCipher
  chacha20_poly1305 psk =
      if length psk == 32
      then ok (record { psk = psk; make_aead = crypto.new_chacha })
      else err (Error.key_size 32)

-- A salt has 16 bytes at least, and as many as the key.
pub salt_size_bounds : (c : MetaCipher) → (16 ≤ salt_size c) × (key_size c ≤ salt_size c)
unfolding salt_size
salt_size_bounds c = (ground arith, ground arith)
