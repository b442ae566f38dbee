-- ===== src/Util/Letters.antt =====
-- The random string of m_util/utils.go consists of the letters of the source's indices.
use miniproxygo.Common.{
  ℕ, zero, suc, ◌+◌, ◌-◌, ◌*◌, ◌/◌, ◌%◌, ◌≤◌, ◌≡◌, refl, sym, ap, ◌∙◌, subst, Bool, true, false,
  Option, some, List, [], ◌∷◌, ◌++◌, length, take, get_or, if◌then◌else◌, ltb, arith,
}
use miniproxygo.Util.{letter_bytes, Cache, letters_loop, rand_string}

-- The `r` lowest indices in `c`.
abbrev pub indices_of : ℕ → ℕ → List ℕ
indices_of zero c = []
indices_of (suc r) c = c % 64 ∷ indices_of r (c / 64)

-- The letters of the indices that have one.
abbrev pub letters_of : List ℕ → List ℕ
letters_of [] = []
letters_of (d ∷ ds) = if ltb d 62 then get_or letter_bytes d 0 ∷ letters_of ds else letters_of ds

-- Letters set down from the end of a text towards its beginning.
abbrev pub backwards : List ℕ → List ℕ → List ℕ
backwards [] b = b
backwards (x ∷ xs) b = backwards xs (x ∷ b)

module _ (word : ℕ → ℕ) where
  -- The indices in `m` words, from call `k` on.
  abbrev pub indices : ℕ → ℕ → List ℕ
  indices k zero = []
  indices k (suc m) = indices_of 10 (word k) ++ indices (suc k) m

  -- The loop on the indices that are left in the cache and in `m` further words.
  abbrev Filled : ℕ → Type 0
  Filled fuel =
      (c r k m i : ℕ) (b : List ℕ)
      → r + 10 * m ≤ fuel
      → i ≤ length (letters_of (indices_of r c ++ indices k m))
      → (next : ℕ) × (letters_loop word fuel (record { cache = c; remain = r; drawn = k }) i b
          ≡ some (backwards (take i (letters_of (indices_of r c ++ indices k m))) b, next))

  -- The letters, when the first index has one or not.
  abbrev one_more : Bool → ℕ → ℕ → ℕ → ℕ → List ℕ
  one_more t c r k m =
      let rest = letters_of (indices_of r (c / 64) ++ indices k m) in
      if t then get_or letter_bytes (c % 64) 0 ∷ rest else rest

  -- One round of the loop whose cache holds `r + 1` indices.
  abbrev round : Bool → ℕ → ℕ → ℕ → ℕ → ℕ → List ℕ → Option (List ℕ × ℕ)
  round letter fuel c r k i b =
      let s : Cache = record { cache = c / 64; remain = r; drawn = k } in
      if letter
      then letters_loop word fuel s i (get_or letter_bytes (c % 64) 0 ∷ b)
      else letters_loop word fuel s (suc i) b

  letters_loop-round :
      (fuel c r k i : ℕ) (b : List ℕ)
      → letters_loop word (suc fuel) (record { cache = c; remain = suc r; drawn = k }) (suc i) b
        ≡ round (ltb (c % 64) 62) fuel c r k i b
  unfolding letters_loop
  letters_loop-round fuel c r k i b =
      let less : suc r - 1 ≡ r = omega arith in
      ap (λ r'. round (ltb (c % 64) 62) fuel c r' k i b) less

  cached :
      (fuel : ℕ)
      → Filled fuel
      → (c r k m i : ℕ) (b : List ℕ) → suc r + 10 * m ≤ suc fuel
      → suc i ≤ length (letters_of (indices_of (suc r) c ++ indices k m))
      → (letter : Bool) → ltb (c % 64) 62 ≡ letter
      → (next : ℕ) × (round letter fuel c r k i b
          ≡ some
              (backwards (take (suc i) (letters_of (indices_of (suc r) c ++ indices k m))) b, next))
  cached fuel later c r k m i b f h true e =
      let many = subst (λ t. suc i ≤ length (one_more t c r k m)) e h in
      let z =
        later (c / 64) r k m i (get_or letter_bytes (c % 64) 0 ∷ b) (omega arith)
          (omega (arith, many)) in
      (z.0, z.1 ∙ ap (λ t. some (backwards (take (suc i) (one_more t c r k m)) b, z.0)) (sym e))
  cached fuel later c r k m i b f h false e =
      let many = subst (λ t. suc i ≤ length (one_more t c r k m)) e h in
      let z = later (c / 64) r k m (suc i) b (omega arith) many in
      (z.0, z.1 ∙ ap (λ t. some (backwards (take (suc i) (one_more t c r k m)) b, z.0)) (sym e))

  filled : (fuel : ℕ) → Filled fuel
  unfolding letters_loop
  filled fuel c r k m zero b f h = (k, refl)
  filled zero c (suc r) k m (suc i) b f h = absurd (omega arith)
  filled zero c zero k (suc m) (suc i) b f h = absurd (omega arith)
  filled zero c zero k zero (suc i) b f h = absurd (omega arith)
  filled (suc fuel) c zero k zero (suc i) b f h = absurd (omega arith)
  filled (suc fuel) c zero k (suc m) (suc i) b f h =
      let z = cached fuel (filled fuel) (word k) 9 (suc k) m i b (omega arith) h _ refl in
      (z.0, letters_loop-round fuel (word k) 9 (suc k) i b ∙ z.1)
  filled (suc fuel) c (suc r) k m (suc i) b f h =
      let z = cached fuel (filled fuel) c r k m i b f h _ refl in
      (z.0, letters_loop-round fuel c r k i b ∙ z.1)

  -- If `m` words of the source hold enough indices below 62, the loop ends after at most `10 * m`
  -- rounds, and the string is the letters of the first `n` of those indices, from its end to its
  -- beginning.
  pub rand_string-letters :
      (k n m fuel : ℕ)
      → n ≤ length (letters_of (indices k m))
      → 10 * m ≤ fuel
      → (next : ℕ) × (rand_string word fuel k n
          ≡ some (backwards (take n (letters_of (indices k m))) [], next))
  unfolding rand_string letters_loop
  rand_string-letters k zero m fuel h f = (suc k, refl)
  rand_string-letters k (suc n) zero fuel h f = absurd (omega arith)
  rand_string-letters k (suc n) (suc m) fuel h f =
      filled fuel (word k) 10 (suc k) m (suc n) [] (omega arith) h
