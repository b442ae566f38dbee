-- ===== src/Socks/Addr/Agreement.antt =====
-- `ReadAddr` and `SplitAddr` of m_socks/socks5.go accept the same inputs.
use miniproxygo.Common.{
  ℕ, ◌+◌, ◌≤◌, ◌<◌, ◌≡◌, refl, sym, ap, ◌∙◌, subst, inl, inr, true, false, Bool-cases, Option, none,
  some, List, [], ◌∷◌, ◌++◌, length, take, drop, replicate, get_or, arith, All, IsByte, ◌==◌,
  ==_iff, if◌then◌else◌,
}
use miniproxygo.Io.{Error, Reader, Delivers}
use miniproxygo.Io.Full.{full_report, read_full_lem}
use miniproxygo.Socks.Addr.{
  Parsed, split_addr, fill, read_domain, read_by_type, read_addr_into, read_addr, max_addr_len,
  err_address_not_supported,
}
use miniproxygo.Socks.Addr.Split.{split_addr_sound}
use miniproxygo.Socks.Addr.Reading.{first_byte, second_byte, fill-Extended, read_addr-encode}

-- What a slice that `SplitAddr` refuses lacks, by its first byte.
short_domain :
    (t : ℕ) (rest : List ℕ)
    → (t == 3) ≡ true
    → split_addr (t ∷ rest) ≡ none
    → length rest < get_or rest 0 0 + 3
unfolding split_addr
short_domain t [] d e = omega arith
short_domain t (n ∷ rest) d e = ground arith

short_ipv4 :
    (t : ℕ) (rest : List ℕ)
    → (t == 3) ≡ false
    → (t == 1) ≡ true
    → split_addr (t ∷ rest) ≡ none
    → length rest < 6
unfolding split_addr
short_ipv4 t rest d v e = ground arith

short_ipv6 :
    (t : ℕ) (rest : List ℕ)
    → (t == 3) ≡ false
    → (t == 1) ≡ false
    → (t == 4) ≡ true
    → split_addr (t ∷ rest) ≡ none
    → length rest < 18
unfolding split_addr
short_ipv6 t rest d v w e = ground arith

-- What `io.ReadFull` reports when too little comes.
cut_off : ℕ → Error
cut_off n = if n == 0 then Error.eof else Error.unexpected_eof

full_report_short : (want n : ℕ) → n < want → full_report want n ≡ some (cut_off n)
unfolding cut_off
full_report_short want n h = ground arith

abbrev pub Failed : {S : Type 0} → Parsed S → Type 0
Failed x = (e : Error) × (x.err ≡ some e)

-- What `ReadAddr` returns, by what `SplitAddr` cuts from the same bytes.
abbrev pub Agrees :
    {S : Type 0} → (S → List ℕ → Type 0) → List ℕ → Option (List ℕ) → Parsed S → Type 0
Agrees Holds bs none x = Failed x
Agrees Holds bs (some a) x = (x.addr ≡ a) × (x.err ≡ none) × Holds x.next (drop (length a) bs)

module _ {S : Type 0} (r : Reader S) (Holds : S → List ℕ → Type 0) (D : Delivers r Holds) where
  fill_short :
      (lo n : ℕ) (b bs : List ℕ) (s : S)
      → Holds s bs
      → length bs < n
      → (fill r lo n b s).err ≡ some (cut_off (length bs))
  unfolding fill
  fill_short lo n b bs s held h =
      (read_full_lem r Holds D n s bs held).1 ∙ full_report_short n (length bs) h

  read_domain-Failed :
      (rest b : List ℕ) (s : S)
      → Holds s rest
      → take 1 b ≡ 3 ∷ []
      → max_addr_len ≤ length b
      → length rest < get_or rest 0 0 + 3
      → Failed (read_domain r b s)
  read_domain-Failed [] b s held front room short =
      let e = fill_short 1 1 b [] s held (omega arith) in (cut_off 0, rw e refl)
  read_domain-Failed (n ∷ rest) b s held front room short =
      let x = fill r 1 1 b s in
      let e =
        fill-Extended r Holds D 1 1 (3 ∷ []) (n ∷ []) rest b s held refl refl front (omega arith) in
      let named : get_or x.buf 1 0 ≡ n = second_byte 3 n x.buf e.front in
      (
        cut_off (length rest),
        rw e.no_error (fill_short 2 _ x.buf rest x.next e.rest_held (omega (arith, named))),
      )

  read_by_type-Failed :
      (t : ℕ) (rest b : List ℕ) (s : S)
      → Holds s rest
      → take 1 b ≡ t ∷ []
      → max_addr_len ≤ length b
      → split_addr (t ∷ rest) ≡ none
      → Failed (read_by_type r b s)
  unfolding read_by_type
  read_by_type-Failed t rest b s held front room refused =
      let t' = first_byte t b front in
      elim (Bool-cases (t == 3)) [
        | inl d ↦
            let three : take 1 b ≡ 3 ∷ [] = front ∙ ap (λ k. k ∷ []) ((==_iff t 3).0 d) in
            rw (t', d) (read_domain-Failed rest b s held three room (short_domain t rest d refused))
        | inr nd ↦ elim (Bool-cases (t == 1)) [
          | inl v4 ↦
              rw (t', nd, v4)
                (
                  cut_off (length rest),
                  fill_short 1 6 b rest s held (short_ipv4 t rest nd v4 refused),
                )
          | inr n4 ↦ elim (Bool-cases (t == 4)) [
            | inl v6 ↦
                rw (t', nd, n4, v6)
                  (
                    cut_off (length rest),
                    fill_short 1 18 b rest s held (short_ipv6 t rest nd n4 v6 refused),
                  )
            | inr n6 ↦ rw (t', nd, n4, n6) (err_address_not_supported, refl)
          ]
        ]
      ]

  read_addr-Failed :
      (bs : List ℕ) (s : S) → Holds s bs → split_addr bs ≡ none → Failed (read_addr r s)
  unfolding read_addr read_addr_into
  read_addr-Failed [] s held refused =
      let e = fill_short 0 1 (replicate max_addr_len 0) [] s held (omega arith) in
      (cut_off 0, rw e refl)
  read_addr-Failed (t ∷ rest) s held refused =
      let b = replicate {A = ℕ} max_addr_len 0 in
      let e = fill-Extended r Holds D 0 1 [] (t ∷ []) rest b s held refl refl refl (omega arith) in
      rw e.no_error (
        read_by_type-Failed t rest (fill r 0 1 b s).buf (fill r 0 1 b s).next e.rest_held e.front
          (omega (arith, e.same_size)) refused)

  split_addr-Agrees :
      (bs : List ℕ) (s : S)
      → All IsByte bs
      → Holds s bs
      → (o : Option (List ℕ)) → split_addr bs ≡ o
      → Agrees Holds bs o (read_addr r s)
  split_addr-Agrees bs s small held none e = read_addr-Failed bs s held e
  split_addr-Agrees bs s small held (some a) e =
      let c = split_addr_sound bs a small e in
      let rest = drop (length a) bs in
      let found =
        read_addr-encode r Holds D c.address rest s c.valid
          (subst (Holds s) (sym (ap (λ l. l ++ rest) c.same ∙ c.whole)) held) in
      (found.0 ∙ c.same, found.1, found.2)

  -- On every input of bytes, whole or cut short, in any pieces: where `SplitAddr` cuts an address from
  -- the input, `ReadAddr` returns the same address without error and leaves the rest unread; where
  -- `SplitAddr` refuses, `ReadAddr` fails.
  pub read_addr-split_addr :
      (bs : List ℕ) (s : S)
      → All IsByte bs
      → Holds s bs
      → Agrees Holds bs (split_addr bs) (read_addr r s)
  read_addr-split_addr bs s small held = split_addr-Agrees bs s small held (split_addr bs) refl
