-- ===== src/Core/Pick.antt =====
-- `PickCipher` of m_core/cipher.go: the table of ciphers, the older names for them, and the key.
use miniproxygo.Common.{
  ℕ, ◌≡◌, ◌⊎◌, inl, inr, refl, sym, ap, subst, ◌∙◌, false, Bool-cases, Option-cases, Option, suc,
  none, some, List, [], ◌∷◌, length, take, if◌then◌else◌, ◌==◌, ==_iff, codes, same_text, to_upper,
}
use miniproxygo.Io.{Error, Result, ok, err, and_then}
use miniproxygo.Shadow.Cipher.{Crypto, MetaCipher, aes_gcm, aesgcm, chacha20_poly1305}
use miniproxygo.Core.Kdf.{IsHash, kdf, derive, kdf-derive}

abbrev pub aead_aes128_gcm : List ℕ
aead_aes128_gcm = codes "AEAD_AES_128_GCM"

abbrev pub aead_aes256_gcm : List ℕ
aead_aes256_gcm = codes "AEAD_AES_256_GCM"

abbrev pub aead_chacha20_poly1305 : List ℕ
aead_chacha20_poly1305 = codes "AEAD_CHACHA20_POLY1305"

-- An entry of `aeadList`.
pub record Choice : Type 0 where
  pub key_size : ℕ
  pub new : List ℕ → Result MetaCipher

-- The interface `Cipher` of m_core: the cipher that does not encrypt, or an AEAD cipher.
pub data StreamCipher : Type 0 where
  dummy : StreamCipher
  aead_cipher : MetaCipher → StreamCipher

-- The `switch name`; what is no older name stays as it is.
abbrev pub full_name : List ℕ → List ℕ
full_name name =
    if same_text name (codes "CHACHA20-IETF-POLY1305")
    then aead_chacha20_poly1305
    else if same_text name (codes "AES-128-GCM")
    then aead_aes128_gcm
    else if same_text name (codes "AES-256-GCM")
    then aead_aes256_gcm
    else name

some_injective : {A : Type 0} {a b : A} → some a ≡ some b → a ≡ b
some_injective e = cc

none-ne-some : {A : Type 0} {a : A} → none ≡ some a → ⊥
none-ne-some e = cc

err-ne-ok : {A : Type 0} {e : Error} {a : A} → err e ≡ ok a → ⊥
err-ne-ok e = cc

dummy-ne : {c : MetaCipher} → ok dummy ≡ ok (aead_cipher c) → ⊥
dummy-ne e = cc

picked_injective : {c c' : MetaCipher} → ok (aead_cipher c) ≡ ok (aead_cipher c') → c ≡ c'
picked_injective e = cc

abbrev pub derived_key : Option (List ℕ) → Result (List ℕ)
derived_key none = err Error.diverged
derived_key (some key) = ok key

module _ {Block : Type 0} (crypto : Crypto Block) (md5 : List ℕ → List ℕ) where
  -- `aeadList[name]`
  unfoldable pub aead_list : List ℕ → Option Choice
  aead_list name =
      if same_text name aead_aes128_gcm
      then some (record { key_size = 16; new = aesgcm crypto })
      else if same_text name aead_aes256_gcm
      then some (record { key_size = 32; new = aesgcm crypto })
      else if same_text name aead_chacha20_poly1305
      then some (record { key_size = 32; new = chacha20_poly1305 crypto })
      else none

  -- The key of the caller, or the password's where that is empty.
  abbrev pub key_for : ℕ → List ℕ → List ℕ → Result (List ℕ)
  key_for size [] password = derived_key (kdf md5 password size)
  key_for size (b ∷ key) password = ok (b ∷ key)

  -- `choice.New(key)` behind the test of the key's length. Go returns the error with a cipher that
  -- holds nothing.
  abbrev pub make : Choice → List ℕ → Result StreamCipher
  make choice key =
      if length key == choice.key_size
      then and_then (choice.new key) (λ c. ok (aead_cipher c))
      else err (Error.key_size choice.key_size)

  abbrev pub choose : Option Choice → List ℕ → List ℕ → Result StreamCipher
  choose none key password = err Error.cipher_not_supported
  choose (some choice) key password = and_then (key_for choice.key_size key password) (make choice)

  -- `PickCipher`
  unfoldable pub pick_cipher : List ℕ → List ℕ → List ℕ → Result StreamCipher
  pick_cipher name key password =
      let upper_name = to_upper name in
      if same_text upper_name (codes "DUMMY")
      then ok dummy
      else choose (aead_list (full_name upper_name)) key password

  -- A table entry: its constructor keeps a key of the right length.
  abbrev Accepts : Choice → Type 0
  Accepts choice =
      ((choice.key_size ≡ 16) ⊎ (choice.key_size ≡ 32))
      × ((key : List ℕ)
          → length key ≡ choice.key_size
          → (c : MetaCipher) × (choice.new key ≡ ok c) × (c.psk ≡ key))

  aesgcm-Accepts :
      (key : List ℕ)
      → (length key ≡ 16) ⊎ (length key ≡ 32)
      → (c : MetaCipher) × (aesgcm crypto key ≡ ok c) × (c.psk ≡ key)
  unfolding aesgcm
  aesgcm-Accepts key h = (
    record { psk = key; make_aead = aes_gcm crypto },
    elim h [ inl e ↦ rw e refl | inr e ↦ rw e refl ],
    refl,
  )

  chacha20-Accepts :
      (key : List ℕ)
      → length key ≡ 32
      → (c : MetaCipher) × (chacha20_poly1305 crypto key ≡ ok c) × (c.psk ≡ key)
  unfolding chacha20_poly1305
  chacha20-Accepts key h = (record { psk = key; make_aead = crypto.new_chacha }, rw h refl, refl)

  found : (c choice : Choice) → Accepts c → some c ≡ some choice → Accepts choice
  found c choice good e = subst Accepts (some_injective e) good

  aead_list-Accepts :
      (name : List ℕ) (choice : Choice) → aead_list name ≡ some choice → Accepts choice
  unfolding aead_list
  aead_list-Accepts name choice e = elim (Bool-cases (same_text name aead_aes128_gcm)) [
    | inl aes128 ↦
        found (record { key_size = 16; new = aesgcm crypto }) choice
          (inl refl, λ key h. aesgcm-Accepts key (inl h)) (rw aes128 at e)
    | inr other ↦ elim (Bool-cases (same_text name aead_aes256_gcm)) [
      | inl aes256 ↦
          found (record { key_size = 32; new = aesgcm crypto }) choice
            (inr refl, λ key h. aesgcm-Accepts key (inr h)) (rw (other, aes256) at e)
      | inr other' ↦ elim (Bool-cases (same_text name aead_chacha20_poly1305)) [
        | inl chacha ↦
            found (record { key_size = 32; new = chacha20_poly1305 crypto }) choice
              (inr refl, chacha20-Accepts) (rw (other, other', chacha) at e)
        | inr unknown ↦ absurd (none-ne-some (rw (other, other', unknown) at e))
      ]
    ]
  ]

  make-Accepts :
      (choice : Choice) (key : List ℕ)
      → Accepts choice
      → length key ≡ choice.key_size
      → (c : MetaCipher) × (make choice key ≡ ok (aead_cipher c)) × (c.psk ≡ key)
  make-Accepts choice key (sizes, accepts) h =
      let (c, made, same) = accepts key h in (c, rw ((==_iff _ _).1 h, made) refl, same)

  -- Every name of the table, and every older name for one, gets a cipher from a password alone,
  -- whatever the password: its key is the first bytes of the chained hashes, as many as the cipher
  -- wants.
  pub pick_cipher-derive :
      IsHash md5
      → (name password : List ℕ) (choice : Choice)
      → same_text (to_upper name) (codes "DUMMY") ≡ false
      → aead_list (full_name (to_upper name)) ≡ some choice
      → (c : MetaCipher) × (pick_cipher name [] password ≡ ok (aead_cipher c))
        × (c.psk ≡ take choice.key_size (derive md5 password [] (suc choice.key_size)))
        × (length c.psk ≡ choice.key_size)
  unfolding pick_cipher
  pick_cipher-derive hash name password choice named found =
      let key = take choice.key_size (derive md5 password [] (suc choice.key_size)) in
      let (derived, sized) = kdf-derive md5 hash password choice.key_size in
      let (c, made, same) =
        make-Accepts choice key (aead_list-Accepts (full_name (to_upper name)) choice found)
          sized in
      (
        c,
        rw (named, found) (ap (λ k. and_then (derived_key k) (make choice)) derived ∙ made),
        same,
        ap length same ∙ sized,
      )

  make_sound :
      (choice : Choice) (key : List ℕ) (c : MetaCipher)
      → Accepts choice
      → make choice key ≡ ok (aead_cipher c)
      → (length key ≡ choice.key_size) × (c.psk ≡ key)
  make_sound choice key c good e = elim (Bool-cases (length key == choice.key_size)) [
    | inl fits ↦
        let sized = (==_iff _ _).0 fits in
        let (c', made, same) = make-Accepts choice key good sized in
        (sized, ap (λ x. x.psk) (picked_injective (sym e ∙ made)) ∙ same)
    | inr unfit ↦ absurd (err-ne-ok (rw unfit at e))
  ]

  -- Whatever cipher is picked holds a key of 16 or 32 bytes, and the caller's own key where that is
  -- not empty.
  pub pick_cipher_sound :
      IsHash md5
      → (name key password : List ℕ) (c : MetaCipher)
      → pick_cipher name key password ≡ ok (aead_cipher c)
      → ((length c.psk ≡ 16) ⊎ (length c.psk ≡ 32)) × ((key ≡ []) ⊎ (c.psk ≡ key))
  unfolding pick_cipher
  pick_cipher_sound hash name key password c e =
      elim (Bool-cases (same_text (to_upper name) (codes "DUMMY"))) [
        | inl plain ↦ absurd (dummy-ne (rw plain at e))
        | inr named ↦ elim (Option-cases (aead_list (full_name (to_upper name)))) [
          | inl unknown ↦ absurd (err-ne-ok (rw (named, unknown) at e))
          | inr (choice, known) ↦
              chosen choice key (aead_list-Accepts _ choice known) (rw (named, known) at e)
        ]
      ]
    where
      sizes :
          (choice : Choice) (k : List ℕ)
          → Accepts choice
          → (length k ≡ choice.key_size) × (c.psk ≡ k)
          → (length c.psk ≡ 16) ⊎ (length c.psk ≡ 32)
      sizes choice k good (sized, same) = elim good.0 [
        | inl h ↦ inl (ap length same ∙ sized ∙ h)
        | inr h ↦ inr (ap length same ∙ sized ∙ h)
      ]

      chosen :
          (choice : Choice) (k : List ℕ)
          → Accepts choice
          → choose (some choice) k password ≡ ok (aead_cipher c)
          → ((length c.psk ≡ 16) ⊎ (length c.psk ≡ 32)) × ((k ≡ []) ⊎ (c.psk ≡ k))
      chosen choice [] good h =
          let made = make_sound choice _ c good (
            sym (
              ap (λ d. and_then (derived_key d) (make choice))
                (kdf-derive md5 hash password choice.key_size).0)
            ∙ h) in
          (sizes choice _ good made, inl refl)
      chosen choice (b ∷ k) good h =
          let made = make_sound choice (b ∷ k) c good h in (sizes choice _ good made, inr made.1)
