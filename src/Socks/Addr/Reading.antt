-- ===== src/Socks/Addr/Reading.antt =====
-- `ReadAddr` reads just the bytes of an address, however they arrive.
use miniproxygo.Common.{
  ℕ, ◌+◌, ◌-◌, ◌≤◌, ◌≡◌, refl, sym, ap, ap₂, ◌∙◌, subst, none, List, [], ◌∷◌, ◌++◌, length, take,
  get_or, replicate, length-append, length-splice, length-replicate, take-append, drop-append,
  take-splice, get_or-take, arith, ge→ltb,
}
use miniproxygo.Io.{Reader, Delivers, read_full}
use miniproxygo.Io.Full.{read_full_ok}
use miniproxygo.Socks.Addr.{
  Filled, Parsed, fill, read_rest, read_domain, read_by_type, read_addr_into, read_addr,
  max_addr_len,
}
use miniproxygo.Socks.Addr.Wire.{Address, domain, ipv4, ipv6, encode, IsAddress}

pub first_byte : (t : ℕ) (b : List ℕ) → take 1 b ≡ t ∷ [] → get_or b 0 0 ≡ t
first_byte t b e = sym (get_or-take 1 0 0 b (omega arith)) ∙ ap (λ l. get_or l 0 0) e

pub second_byte : (t n : ℕ) (b : List ℕ) → take 2 b ≡ t ∷ n ∷ [] → get_or b 1 0 ≡ n
second_byte t n b e = sym (get_or-take 2 1 0 b (omega arith)) ∙ ap (λ l. get_or l 1 0) e

-- A buffer that begins with `p`, after a read behind it of the bytes `q`.
pub record Extended {S : Type 0} (Holds : S → List ℕ → Type 0) (p q rest b : List ℕ) (x : Filled S)
    : Type 0 where
  pub no_error : x.err ≡ none
  pub front : take (length p + length q) x.buf ≡ p ++ q
  pub same_size : length x.buf ≡ length b
  pub rest_held : Holds x.next rest

module _ {S : Type 0} (r : Reader S) (Holds : S → List ℕ → Type 0) (D : Delivers r Holds) where
  pub fill-Extended :
      (lo n : ℕ) (p q rest b : List ℕ) (s : S)
      → Holds s (q ++ rest)
      → lo ≡ length p
      → n ≡ length q
      → take lo b ≡ p
      → lo + n ≤ length b
      → Extended Holds p q rest b (fill r lo n b s)
  unfolding fill
  fill-Extended lo n p q rest b s held elo en front room =
      let full =
        read_full_ok r Holds D n s (q ++ rest) held (omega (arith, length-append q rest)) in
      let got : (read_full r n s).got ≡ q = full.0 ∙ take-append n q rest en in
      record {
        no_error = full.1;
        front =
            take-splice (length p + length q) lo (read_full r n s).got b (omega arith)
              (omega (arith, ap length got))
            ∙ ap₂ (◌++◌) front got;
        same_size = length-splice lo (read_full r n s).got b (omega (arith, ap length got));
        rest_held = subst (Holds (read_full r n s).next) (drop-append n q rest en) full.2;
      }

  -- What a routine that reads an address returns when all goes well.
  abbrev pub Reads : List ℕ → List ℕ → Parsed S → Type 0
  Reads a rest x = (x.addr ≡ a) × (x.err ≡ none) × Holds x.next rest

  read_rest-Reads :
      (lo total : ℕ) (p q rest b : List ℕ) (s : S)
      → Holds s (q ++ rest)
      → lo ≡ length p
      → total ≡ lo + length q
      → take lo b ≡ p
      → total ≤ length b
      → Reads (p ++ q) rest (read_rest r lo total b s)
  read_rest-Reads lo total p q rest b s held elo et front room =
      let e =
        fill-Extended lo (total - lo) p q rest b s held elo (omega arith) front (omega arith) in
      (
        ap (λ m. take m (fill r lo (total - lo) b s).buf) (omega arith) ∙ e.front,
        e.no_error,
        e.rest_held,
      )

  read_domain-Reads :
      (host : List ℕ) (p q : ℕ) (rest b : List ℕ) (s : S)
      → length host ≤ 255
      → Holds s (length host ∷ ((host ++ p ∷ q ∷ []) ++ rest))
      → take 1 b ≡ 3 ∷ []
      → max_addr_len ≤ length b
      → Reads (encode (domain host p q)) rest (read_domain r b s)
  read_domain-Reads host p q rest b s short held front room =
      let x = fill r 1 1 b s in
      let e =
        fill-Extended 1 1 (3 ∷ []) (length host ∷ []) ((host ++ p ∷ q ∷ []) ++ rest) b s held refl
          refl front (omega arith) in
      let named : get_or x.buf 1 0 ≡ length host = second_byte 3 (length host) x.buf e.front in
      rw e.no_error (
        read_rest-Reads 2 (1 + 1 + get_or x.buf 1 0 + 2) (3 ∷ length host ∷ []) (host ++ p ∷ q ∷ [])
          rest x.buf x.next e.rest_held refl (omega (arith, named, length-append host (p ∷ q ∷ [])))
          e.front (omega (arith, named, e.same_size)))

  -- The first byte of an address, and the bytes behind it.
  abbrev kind : Address → ℕ
  kind (domain host p q) = 3
  kind (ipv4 ip p q) = 1
  kind (ipv6 ip p q) = 4

  abbrev behind : Address → List ℕ
  behind (domain host p q) = length host ∷ (host ++ p ∷ q ∷ [])
  behind (ipv4 ip p q) = ip ++ p ∷ q ∷ []
  behind (ipv6 ip p q) = ip ++ p ∷ q ∷ []

  -- The `switch` on a buffer whose first byte has been read.
  read_by_type-Reads :
      (x : Address) (rest b : List ℕ) (s : S)
      → IsAddress x
      → Holds s (behind x ++ rest)
      → take 1 b ≡ kind x ∷ []
      → max_addr_len ≤ length b
      → Reads (encode x) rest (read_by_type r b s)
  unfolding read_by_type
  read_by_type-Reads (domain host p q) rest b s valid held front room =
      rw (first_byte 3 b front) (read_domain-Reads host p q rest b s valid held front room)
  read_by_type-Reads (ipv4 ip p q) rest b s valid held front room = rw (first_byte 1 b front) (
      read_rest-Reads 1 7 (1 ∷ []) (ip ++ p ∷ q ∷ []) rest b s held refl
        (omega (arith, length-append ip (p ∷ q ∷ []))) front (omega arith))
  read_by_type-Reads (ipv6 ip p q) rest b s valid held front room = rw (first_byte 4 b front) (
      read_rest-Reads 1 19 (4 ∷ []) (ip ++ p ∷ q ∷ []) rest b s held refl
        (omega (arith, length-append ip (p ∷ q ∷ []))) front (omega arith))

  head_and_rest :
      (x : Address) (rest : List ℕ) → encode x ++ rest ≡ (kind x ∷ []) ++ (behind x ++ rest)
  head_and_rest (domain host p q) rest = refl
  head_and_rest (ipv4 ip p q) rest = refl
  head_and_rest (ipv6 ip p q) rest = refl

  -- `readAddr` into any buffer of `MaxAddrLen` bytes or more, whatever it holds before.
  pub read_addr_into-Reads :
      (x : Address) (rest b : List ℕ) (s : S)
      → IsAddress x
      → Holds s (encode x ++ rest)
      → max_addr_len ≤ length b
      → Reads (encode x) rest (read_addr_into r b s)
  unfolding read_addr_into
  read_addr_into-Reads x rest b s valid held room =
      let e =
        fill-Extended 0 1 [] (kind x ∷ []) (behind x ++ rest) b s
          (subst (Holds s) (head_and_rest x rest) held) refl refl refl (omega arith) in
      rw (ge→ltb (length b) max_addr_len room) (
        rw e.no_error (
          read_by_type-Reads x rest (fill r 0 1 b s).buf (fill r 0 1 b s).next valid e.rest_held
            e.front (omega (arith, e.same_size))))

  -- `ReadAddr` on an input that begins with an address returns it without error, and leaves the
  -- bytes behind it unread.
  pub read_addr-encode :
      (x : Address) (rest : List ℕ) (s : S)
      → IsAddress x
      → Holds s (encode x ++ rest)
      → ((read_addr r s).addr ≡ encode x)
        × ((read_addr r s).err ≡ none)
        × Holds (read_addr r s).next rest
  unfolding read_addr
  read_addr-encode x rest s valid held =
      read_addr_into-Reads x rest (replicate max_addr_len 0) s valid held
        (omega (arith, length-replicate {A = ℕ} max_addr_len 0))
