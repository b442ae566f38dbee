-- ===== src/Shadow/Nonce.antt =====
-- `increment` of m_shadow/stream.go: the nonce of the next box.
use native.Mathlib.Nat.{pow-suc}
use miniproxygo.Common.{
  ℕ, zero, suc, ◌+◌, ◌*◌, ◌%◌, ◌^◌, ◌<◌, ◌≡◌, refl, ap, ◌∙◌, sym, List, [], ◌∷◌, length, All,
  if◌then◌else◌, ◌==◌, arith, Bool-cases, inl, inr, ◌≢◌, replicate, IsByte, ==_iff,
  length-replicate,
}

-- Little-endian: a byte that wraps to 0 carries into the next one.
unfoldable pub increment : List ℕ → List ℕ
increment [] = []
increment (b ∷ bs) =
    let b' = (b + 1) % 256 in
    let carried = increment bs in if b' == 0 then b' ∷ carried else b' ∷ bs

-- The number that a nonce stands for.
pub value : List ℕ → ℕ
value [] = 0
value (b ∷ bs) = b + 256 * value bs

pub length-increment : (bs : List ℕ) → length (increment bs) ≡ length bs
unfolding increment
length-increment [] = refl
length-increment (b ∷ bs) = ground (arith, length-increment bs)

pub increment-IsByte : (bs : List ℕ) → All IsByte bs → All IsByte (increment bs)
unfolding increment
increment-IsByte [] h = tt
increment-IsByte (b ∷ bs) h = ground (arith, increment-IsByte bs h.1)

value-lt : (bs : List ℕ) → All IsByte bs → value bs < 256 ^ length bs
unfolding value
value-lt [] h = omega arith
value-lt (b ∷ bs) h = omega (arith, value-lt bs h.1, pow-suc 256 (length bs), h.0)

value_step :
    (bs : List ℕ)
    → All IsByte bs
    → (value bs + 1 < 256 ^ length bs → value (increment bs) ≡ value bs + 1)
      × (value bs + 1 ≡ 256 ^ length bs → value (increment bs) ≡ 0)
unfolding increment value
value_step [] h = (λ lt. absurd (omega arith), λ e. refl)
value_step (b ∷ bs) h = (
  λ lt. elim (Bool-cases ((b + 1) % 256 == 0)) [
    | inl wraps ↦
        rw wraps
          (omega (arith, (==_iff _ _).0 wraps, pow-suc 256 (length bs), (value_step bs h.1).0, h.0))
    | inr stays ↦ rw stays (ground arith)
  ],
  λ e. elim (Bool-cases ((b + 1) % 256 == 0)) [
    | inl wraps ↦ rw wraps (
        omega (
          arith,
          (==_iff _ _).0 wraps,
          pow-suc 256 (length bs),
          (value_step bs h.1).1,
          h.0,
          value-lt bs h.1,
        ))
    | inr stays ↦ rw stays (ground (arith, pow-suc 256 (length bs), h.0, value-lt bs h.1))
  ],
)

-- On bytes, `increment` adds 1 to the little-endian number and wraps around at the nonce's size.
pub value-increment :
    (bs : List ℕ) → All IsByte bs → value (increment bs) ≡ (value bs + 1) % 256 ^ length bs
value-increment bs h = grind (arith, value_step bs h, value-lt bs h)

-- The nonce after `k` boxes.
unfoldable pub advance : ℕ → List ℕ → List ℕ
advance zero bs = bs
advance (suc k) bs = increment (advance k bs)

abbrev pub zeros : ℕ → List ℕ
zeros n = replicate n 0

zeros-IsByte : (n : ℕ) → All IsByte (zeros n)
zeros-IsByte zero = tt
zeros-IsByte (suc n) = (omega arith, zeros-IsByte n)

value-zeros : (n : ℕ) → value (zeros n) ≡ 0
unfolding value
value-zeros zero = refl
value-zeros (suc n) = omega (arith, value-zeros n)

pub length-advance : (k : ℕ) (bs : List ℕ) → length (advance k bs) ≡ length bs
unfolding advance
length-advance zero bs = refl
length-advance (suc k) bs = length-increment (advance k bs) ∙ length-advance k bs

advance-IsByte : (k : ℕ) (bs : List ℕ) → All IsByte bs → All IsByte (advance k bs)
unfolding advance
advance-IsByte zero bs h = h
advance-IsByte (suc k) bs h = increment-IsByte (advance k bs) (advance-IsByte k bs h)

-- The k-th nonce of a stream is the number k, until the nonce's size is exhausted.
pub value-advance : (n k : ℕ) → k < 256 ^ n → value (advance k (zeros n)) ≡ k
unfolding advance
value-advance n zero h = value-zeros n
value-advance n (suc k) h =
    let size : length (advance k (zeros n)) ≡ n =
      length-advance k (zeros n) ∙ length-replicate n 0 in
    let now : value (advance k (zeros n)) ≡ k = value-advance n k (omega arith) in
    let fits : value (advance k (zeros n)) + 1 < 256 ^ length (advance k (zeros n)) =
      rw (now, size) (omega arith) in
    (value_step (advance k (zeros n)) (advance-IsByte k (zeros n) (zeros-IsByte n))).0 fits
    ∙ rw now (omega arith)

-- Below 256 to the nonce's size, different counts of boxes give different nonces.
pub advance_distinct :
    (n i j : ℕ) → i < 256 ^ n → j < 256 ^ n → i ≢ j → advance i (zeros n) ≢ advance j (zeros n)
advance_distinct n i j hi hj ne e =
    ne (sym (value-advance n i hi) ∙ ap value e ∙ value-advance n j hj)
