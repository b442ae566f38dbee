-- ===== src/Shadow/Frame.antt =====
-- The format of the encrypted stream: per payload a sealed 2-byte length and the sealed payload.
-- This is the description that the writer and the reader of m_shadow/stream.go are measured by.
use miniproxygo.Common.{ℕ, ◌/◌, ◌%◌, ◌≤◌, ◌<◌, List, [], ◌∷◌, ◌++◌, length}
use miniproxygo.Shadow.Aead.{Aead}
use miniproxygo.Shadow.Nonce.{increment}

-- `payloadSizeMask`
abbrev pub payload_size_mask : ℕ
payload_size_mask = 0x3FFF

-- `byte(nr>>8), byte(nr)`
abbrev pub header : ℕ → List ℕ
header nr = (nr / 256 % 256) ∷ (nr % 256) ∷ []

-- The payloads in a row.
abbrev pub concat : List (List ℕ) → List ℕ
concat [] = []
concat (p ∷ ps) = p ++ concat ps

-- A payload that fits a record; no record is empty.
abbrev pub IsPayload : List ℕ → Type 0
IsPayload p = (0 < length p) × (length p ≤ payload_size_mask)

-- The nonce behind these records: each uses two.
unfoldable pub nonce_after : List ℕ → List (List ℕ) → List ℕ
nonce_after nonce [] = nonce
nonce_after nonce (p ∷ ps) = nonce_after (increment (increment nonce)) ps

module _ (a : Aead) where
  unfoldable pub box : List ℕ → List ℕ → List ℕ
  box nonce p = a.seal nonce (header (length p)) ++ a.seal (increment nonce) p

  unfoldable pub frames : List ℕ → List (List ℕ) → List ℕ
  frames nonce [] = []
  frames nonce (p ∷ ps) = box nonce p ++ frames (increment (increment nonce)) ps
