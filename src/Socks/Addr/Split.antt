-- ===== src/Socks/Addr/Split.antt =====
-- `SplitAddr` cuts exactly the addresses from the beginning of a slice.
use miniproxygo.Common.{
  ℕ, zero, suc, ◌+◌, ◌≤◌, ◌≡◌, refl, sym, ap, ◌∙◌, none, some, List, [], ◌∷◌, ◌++◌, length, take,
  drop, length-append, length-take, take-append, take-append-drop, arith, All, IsByte, ltb, ltb→ge,
  ◌==◌, ==_iff, Bool-cases, inl, inr, ◌⊎◌, false, ge→ltb, ap₂,
}
use miniproxygo.Socks.Addr.{split_addr, announced, cut}
use miniproxygo.Socks.Addr.Wire.{Address, domain, ipv4, ipv6, encode, IsAddress}

announced-encode :
    (x : Address) (rest : List ℕ)
    → IsAddress x
    → announced (encode x ++ rest) ≡ some (length (encode x))
announced-encode (domain host p q) rest h = ground (arith, length-append host (p ∷ q ∷ []))
announced-encode (ipv4 ip p q) rest h = ground (arith, length-append ip (p ∷ q ∷ []))
announced-encode (ipv6 ip p q) rest h = ground (arith, length-append ip (p ∷ q ∷ []))

-- An address in front of any bytes is cut off whole.
pub split_addr-encode :
    (x : Address) (rest : List ℕ) → IsAddress x → split_addr (encode x ++ rest) ≡ some (encode x)
unfolding split_addr
split_addr-encode x rest h =
    let enough : ltb (length (encode x ++ rest)) (length (encode x)) ≡ false =
      ge→ltb _ _ (omega (arith, length-append (encode x) rest)) in
    ap (λ n. cut n (encode x ++ rest)) (announced-encode x rest h)
    ∙ rw enough (ap some (take-append (length (encode x)) (encode x) rest refl))

-- The last two of `n + 2` bytes.
two_last :
    (n : ℕ) (xs : List ℕ)
    → n + 2 ≤ length xs
    → (p q : ℕ) × (take (n + 2) xs ≡ take n xs ++ p ∷ q ∷ [])
two_last zero (p ∷ q ∷ xs) h = (p, q, refl)
two_last zero (p ∷ []) h = absurd (omega arith)
two_last zero [] h = absurd (omega arith)
two_last (suc n) [] h = absurd (omega arith)
two_last (suc n) (x ∷ xs) h =
    let (p, q, e) = two_last n xs (omega arith) in
    let next : suc n + 2 ≡ suc (n + 2) = omega arith in
    (p, q, ap (λ m. take m (x ∷ xs)) next ∙ ap (◌∷◌ x) e)

cut_sound : (n : ℕ) (b a : List ℕ) → cut (some n) b ≡ some a → (n ≤ length b) × (a ≡ take n b)
cut_sound n b a e = elim (Bool-cases (ltb (length b) n)) [
  | inl short ↦ (absurd (refused (rw short at e)), absurd (refused (rw short at e)))
  | inr enough ↦ (ltb→ge _ _ enough, taken (rw enough at e))
]
  where
    refused : none ≡ some a → ⊥
    refused h = cc

    taken : some (take n b) ≡ some a → a ≡ take n b
    taken h = cc

-- What `a` is, when it has been cut from the beginning of `b`.
pub record Cut (b a : List ℕ) : Type 0 where
  pub address : Address
  pub valid : IsAddress address
  pub same : encode address ≡ a
  pub whole : a ++ drop (length a) b ≡ b

front_whole : (n : ℕ) (b : List ℕ) → n ≤ length b → take n b ++ drop (length (take n b)) b ≡ b
front_whole n b h =
    let e : length (take n b) ≡ n = omega (arith, length-take n b) in
    ap (λ m. take n b ++ drop m b) e ∙ take-append-drop n b

announced_cases :
    (t n : ℕ) (b : List ℕ)
    → (t ≡ 3) × (announced (t ∷ n ∷ b) ≡ some (suc (suc (n + 2))))
      ⊎ (t ≡ 1) × (announced (t ∷ n ∷ b) ≡ some 7)
      ⊎ (t ≡ 4) × (announced (t ∷ n ∷ b) ≡ some 19)
      ⊎ (announced (t ∷ n ∷ b) ≡ none)
announced_cases t n b = elim (Bool-cases (t == 3)) [
  | inl d ↦ inl ((==_iff t 3).0 d, ground arith)
  | inr nd ↦ elim (Bool-cases (t == 1)) [
    | inl v4 ↦ inr (inl ((==_iff t 1).0 v4, ground arith))
    | inr n4 ↦ elim (Bool-cases (t == 4)) [
      | inl v6 ↦ inr (inr (inl ((==_iff t 4).0 v6, ground arith)))
      | inr n6 ↦ inr (inr (inr (ground arith)))
    ]
  ]
]

short_none : (t : ℕ) → split_addr (t ∷ []) ≡ none
unfolding split_addr
short_none t = ground arith

-- An IP address of `n` bytes behind its type.
ip_cut :
    (t n : ℕ) (kind : List ℕ → ℕ → ℕ → Address) (b a : List ℕ)
    → ((ip : List ℕ) (p q : ℕ) → encode (kind ip p q) ≡ t ∷ (ip ++ p ∷ q ∷ []))
    → ((ip : List ℕ) (p q : ℕ) → length ip ≡ n → IsAddress (kind ip p q))
    → cut (some (suc (n + 2))) (t ∷ b) ≡ some a
    → Cut (t ∷ b) a
ip_cut t n kind b a shape size e =
    let (fits, same) = cut_sound (suc (n + 2)) (t ∷ b) a e in
    let (p, q, last) = two_last n b (omega arith) in
    record {
      address = kind (take n b) p q;
      valid = size (take n b) p q (omega (arith, length-take n b));
      same = shape (take n b) p q ∙ ap (◌∷◌ t) (sym last) ∙ sym same;
      whole = rw same (front_whole (suc (n + 2)) (t ∷ b) fits);
    }

-- Whatever `SplitAddr` cuts off is an address, and stands at the beginning of the slice.
pub split_addr_sound : (b a : List ℕ) → All IsByte b → split_addr b ≡ some a → Cut b a
unfolding split_addr
split_addr_sound [] a h e = cc
split_addr_sound (t ∷ []) a h e = cc (short_none t)
split_addr_sound (t ∷ n ∷ b) a h e = elim (announced_cases t n b) [
  | inl (d, m) ↦
      let (fits, same) = cut_sound (suc (suc (n + 2))) (t ∷ n ∷ b) a (rw m at e) in
      let (p, q, last) = two_last n b (omega arith) in
      let size : length (take n b) ≡ n = omega (arith, length-take n b) in
      record {
        address = domain (take n b) p q;
        valid = omega (arith, size, h.1.0);
        same =
            ap₂ (λ x y. x ∷ y ∷ (take n b ++ p ∷ q ∷ [])) (sym d) size
            ∙ ap (λ l. t ∷ n ∷ l) (sym last)
            ∙ sym same;
        whole = rw same (front_whole (suc (suc (n + 2))) (t ∷ n ∷ b) fits);
      }
  | inr (inl (v, m)) ↦
      ip_cut t 4 ipv4 (n ∷ b) a (λ ip p q. ap (λ x. x ∷ (ip ++ p ∷ q ∷ [])) (sym v)) (λ ip p q k. k)
        (rw m at e)
  | inr (inr (inl (v, m))) ↦
      ip_cut t 16 ipv6 (n ∷ b) a (λ ip p q. ap (λ x. x ∷ (ip ++ p ∷ q ∷ [])) (sym v))
        (λ ip p q k. k) (rw m at e)
  | inr (inr (inr m)) ↦ refused (rw m at e)
]
  where
    refused : none ≡ some a → Cut (t ∷ n ∷ b) a
    refused x = cc
