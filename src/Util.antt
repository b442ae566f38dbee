-- ===== src/Util.antt =====
-- m_util/utils.go: `RandStringBytesMaskImprSrc`, with `src` a parameter.
pub mod Letters
mod Runs
use miniproxygo.Common.{
  ℕ, zero, suc, ◌-◌, ◌/◌, ◌%◌, Option, none, some, List, [], ◌∷◌, codes, length, get_or,
  if◌then◌else◌, ltb, ◌==◌,
}

abbrev pub letter_bytes : List ℕ
letter_bytes = codes "0123456789abcdefghijklmnopqrstuvwxyzABCDEFGHIJKLMNOPQRSTUVWXYZ"

-- `letterIdxMax`, the indices of 6 bits that fit in 63 bits.
abbrev pub letter_idx_max : ℕ
letter_idx_max = 10

-- `cache` and `remain`, and how many times `src.Int63` has been called.
pub record Cache : Type 0 where
  pub cache : ℕ
  pub remain : ℕ
  pub drawn : ℕ

-- `word k` is what `src` gives on its call `k`, counted from 0.
module _ (word : ℕ → ℕ) where
  abbrev pub draw : ℕ → Cache
  draw k = record { cache = word k; remain = letter_idx_max; drawn = suc k }

  -- `if remain == 0`
  abbrev pub refill : ℕ → Cache → Cache
  refill zero s = draw s.drawn
  refill (suc r) s = s

  -- `cache >>= letterIdxBits` and `remain--`
  abbrev pub spend : Cache → Cache
  spend s = record s { cache = s.cache / 64; remain = s.remain - 1 }

  -- The loop, with `i + 1` in the place of the source's `i`, and of `b` what is filled already.
  unfoldable pub letters_loop : ℕ → Cache → ℕ → List ℕ → Option (List ℕ × ℕ)
  letters_loop fuel s zero b = some (b, s.drawn)
  letters_loop zero s (suc i) b = none
  letters_loop (suc fuel) s (suc i) b =
      let full = refill s.remain s in
      let idx = full.cache % 64 in
      let next = spend full in
      let placed = letters_loop fuel next i (get_or letter_bytes idx 0 ∷ b) in
      let skipped = letters_loop fuel next (suc i) b in
      if ltb idx (length letter_bytes) then placed else skipped

  -- The string, and the calls of `src.Int63` so far, where `k` came before.
  unfoldable pub rand_string : ℕ → ℕ → ℕ → Option (List ℕ × ℕ)
  rand_string fuel k n = letters_loop fuel (draw k) n []
