-- ===== src/Socks/Strconv.antt =====
-- Go's `strconv.Itoa` and `strconv.ParseUint(s, 10, 16)` on the bytes of a text.
use native.Mathlib.Nat.{pow-suc}
use miniproxygo.Common.{
  ℕ, zero, suc, ◌+◌, ◌-◌, ◌*◌, ◌/◌, ◌%◌, ◌^◌, ◌<◌, ◌≡◌, refl, ap, ◌∙◌, Bool, ◌&&◌, Option, none,
  some, List, [], ◌∷◌, if◌then◌else◌, ltb, leb, arith, Bool-cases, inl, inr, lt→ltb,
}

-- The digits of `n` in front of `acc`; `fuel` bounds their number.
unfoldable pub digits : ℕ → ℕ → List ℕ → List ℕ
digits zero n acc = acc
digits (suc fuel) n acc =
    let last = (b'0' + n % 10) ∷ acc in
    let more = digits fuel (n / 10) last in if ltb n 10 then last else more

-- A number below 2 ^ 64 has at most twenty digits.
unfoldable pub itoa : ℕ → List ℕ
itoa n = digits 20 n []

abbrev pub is_digit : ℕ → Bool
is_digit c = leb b'0' c && leb c b'9'

-- The value so far, and whether a byte was no digit.
unfoldable pub read_digits : ℕ → List ℕ → Option ℕ
read_digits n [] = some n
read_digits n (c ∷ cs) =
    let rest = read_digits (n * 10 + (c - b'0')) cs in if is_digit c then rest else none

abbrev pub in_range : Option ℕ → Option ℕ
in_range none = none
in_range (some n) = if ltb n (2 ^ 16) then some n else none

unfoldable pub parse_uint : List ℕ → Option ℕ
parse_uint [] = none
parse_uint (c ∷ cs) = in_range (read_digits 0 (c ∷ cs))

-- Reading on behind the digits of `n` continues with `n` as the value so far.
read_digits-digits :
    (fuel n : ℕ) (acc : List ℕ)
    → n < 10 ^ suc fuel
    → read_digits 0 (digits (suc fuel) n acc) ≡ read_digits n acc
unfolding digits read_digits
read_digits-digits zero n acc h = ground arith
read_digits-digits (suc fuel) n acc h = ground (
  arith,
  read_digits-digits fuel (n / 10) ((b'0' + n % 10) ∷ acc) (omega (arith, pow-suc 10 (suc fuel))),
)

digits-ne-nil :
    (fuel n : ℕ) (acc : List ℕ) → (d : ℕ) × (ds : List ℕ) × (digits (suc fuel) n acc ≡ d ∷ ds)
unfolding digits
digits-ne-nil zero n acc = (b'0' + n % 10, acc, ground arith)
digits-ne-nil (suc fuel) n acc = elim (Bool-cases (ltb n 10)) [
  | inl small ↦ (b'0' + n % 10, acc, rw small)
  | inr large ↦
      let (d, ds, e) = digits-ne-nil fuel (n / 10) ((b'0' + n % 10) ∷ acc) in (d, ds, rw large e)
]

parse_uint-cons :
    (l : List ℕ) (d : ℕ) (ds : List ℕ) → l ≡ d ∷ ds → parse_uint l ≡ in_range (read_digits 0 l)
unfolding parse_uint
parse_uint-cons [] d ds e = cc
parse_uint-cons (c ∷ cs) d ds e = refl

-- A port that was printed is read back.
pub parse_uint-itoa : (n : ℕ) → n < 2 ^ 16 → parse_uint (itoa n) ≡ some n
unfolding itoa read_digits
parse_uint-itoa n h =
    let (d, ds, e) = digits-ne-nil 19 n [] in
    parse_uint-cons (digits 20 n []) d ds e
    ∙ ap in_range (read_digits-digits 19 n [] (omega arith))
    ∙ rw (lt→ltb n (2 ^ 16) h)
