-- ===== src/Shadow/Reader/Record.antt =====
-- One record: the reader's two decryptions in place give back what was sealed.
use miniproxygo.Common.{
  ℕ, ◌+◌, ◌/◌, ◌%◌, ◌≤◌, ◌<◌, ◌≡◌, refl, sym, ap, ◌∙◌, subst, List, [], ◌∷◌, ◌++◌, length, take,
  drop, get_or, splice, arith, length-splice, take-append, drop-append, take-splice, append_assoc,
  length-append, some, none, take_nil, drop_nil,
}
use miniproxygo.Io.{Error, Reader, Delivers, read_full}
use miniproxygo.Io.Full.{read_full_ok, read_full_lem, read_full_spends}
use miniproxygo.Shadow.Aead.{Aead, IsAead}
use miniproxygo.Shadow.Nonce.{increment, length-increment}
use miniproxygo.Shadow.Frame.{header, payload_size_mask, IsPayload, box}
use miniproxygo.Shadow.Reader.{Opener, Opened, size_of, read_box, read_record}

-- A decryption that has gone well: `plain` stands at the start of the buffer.
record Unsealed {S : Type 0} (r : Reader S) (Holds : S → List ℕ → Type 0) (plain rest : List ℕ)
    (o : Opener S) (y : Opened S) : Type 0 where
  pub no_error : y.err ≡ none
  pub payload : take (length plain) y.next.buf ≡ plain
  pub nonce_moved : y.next.nonce ≡ increment o.nonce
  pub rest_held : Holds y.next.source rest
  pub same_size : length y.next.buf ≡ length o.buf
  pub same_lo : y.next.left_lo ≡ o.left_lo
  pub same_hi : y.next.left_hi ≡ o.left_hi
  pub spent : r.budget y.next.source < r.budget o.source

module _ (a : Aead) (laws : IsAead a) {S : Type 0} (r : Reader S) (Holds : S → List ℕ → Type 0)
    (D : Delivers r Holds) where
  read_box-Unsealed :
      (n : ℕ) (o : Opener S) (plain rest : List ℕ)
      → n ≡ length plain + a.overhead
      → 0 < n
      → n ≤ length o.buf
      → length o.nonce ≡ a.nonce_size
      → Holds o.source (a.seal o.nonce plain ++ rest)
      → Unsealed r Holds plain rest o (read_box a r n o)
  unfolding read_box
  read_box-Unsealed n o plain rest e pos room sized held = rw full.1 (
      rw opened (record {
        no_error = refl;
        payload = take-splice (length plain) 0 plain buf' (omega arith) (omega arith);
        nonce_moved = refl;
        rest_held =
            subst (Holds (read_full r n o.source).next) (drop-append n sealed rest (sym grown))
              full.2;
        same_size = length-splice 0 plain buf' (omega (arith, size')) ∙ size';
        same_lo = refl;
        same_hi = refl;
        spent = read_full_spends r Holds D n o.source (sealed ++ rest) held enough pos;
      }))
    where
      sealed : List ℕ
      sealed = a.seal o.nonce plain

      grown : length sealed ≡ n
      grown = laws.length-seal o.nonce plain sized ∙ sym e

      enough : n ≤ length (sealed ++ rest)
      enough = omega (arith, grown, length-append sealed rest)

      full :
          ((read_full r n o.source).got ≡ take n (sealed ++ rest))
          × ((read_full r n o.source).err ≡ none)
          × Holds (read_full r n o.source).next (drop n (sealed ++ rest))
      full = read_full_ok r Holds D n o.source (sealed ++ rest) held enough

      got : (read_full r n o.source).got ≡ sealed
      got = full.0 ∙ take-append n sealed rest (sym grown)

      buf' : List ℕ
      buf' = splice 0 (read_full r n o.source).got o.buf

      size' : length buf' ≡ length o.buf
      size' =
          length-splice 0 (read_full r n o.source).got o.buf (omega (arith, ap length got, grown))

      opened : a.open_box o.nonce (take n buf') ≡ some plain
      opened =
          ap (a.open_box o.nonce) (
            take-splice n 0 (read_full r n o.source).got o.buf (omega arith)
              (omega (arith, ap length got, grown))
            ∙ got)
          ∙ laws.open-seal o.nonce plain sized

size_of-header :
    (buf : List ℕ) (n : ℕ) → n ≤ payload_size_mask → take 2 buf ≡ header n → size_of buf ≡ n
size_of-header [] n h e = absurd (omega (arith, ap length e))
size_of-header (x ∷ []) n h e = absurd (omega (arith, ap length e))
size_of-header (x ∷ y ∷ buf) n h e =
    let first : x ≡ n / 256 % 256 = ap (λ l. get_or l 0 0) e in
    let second : y ≡ n % 256 = ap (λ l. get_or l 1 0) e in omega arith

-- A record that has been read: the payload's length, and the payload at the start of the buffer.
pub record Recovered {S : Type 0} (r : Reader S) (Holds : S → List ℕ → Type 0) (p rest : List ℕ)
    (o : Opener S) (y : Opened S) : Type 0 where
  pub no_error : y.err ≡ none
  pub size : y.size ≡ length p
  pub payload : take (length p) y.next.buf ≡ p
  pub nonce_moved : y.next.nonce ≡ increment (increment o.nonce)
  pub rest_held : Holds y.next.source rest
  pub same_size : length y.next.buf ≡ length o.buf
  pub same_lo : y.next.left_lo ≡ o.left_lo
  pub same_hi : y.next.left_hi ≡ o.left_hi
  pub spent : r.budget y.next.source < r.budget o.source

module _ (a : Aead) (laws : IsAead a) {S : Type 0} (r : Reader S) (Holds : S → List ℕ → Type 0)
    (D : Delivers r Holds) where
  pub read_record-Recovered :
      (o : Opener S) (p rest : List ℕ)
      → IsPayload p
      → length o.nonce ≡ a.nonce_size
      → length o.buf ≡ payload_size_mask + a.overhead
      → Holds o.source (box a o.nonce p ++ rest)
      → Recovered r Holds p rest o (read_record a r o)
  unfolding read_record box
  read_record-Recovered o p rest (pos, fits) sized room held = rw head.no_error (
      rw body.no_error (record {
        no_error = refl;
        size = size;
        payload = body.payload;
        nonce_moved = body.nonce_moved ∙ ap increment head.nonce_moved;
        rest_held = body.rest_held;
        same_size = body.same_size ∙ head.same_size;
        same_lo = body.same_lo ∙ head.same_lo;
        same_hi = body.same_hi ∙ head.same_hi;
        spent = omega (arith, body.spent, head.spent);
      }))
    where
      h : Opened S
      h = read_box a r (2 + a.overhead) o

      tail_box : List ℕ
      tail_box = a.seal (increment o.nonce) p ++ rest

      head : Unsealed r Holds (header (length p)) tail_box o h
      head =
          read_box-Unsealed a laws r Holds D (2 + a.overhead) o (header (length p)) tail_box
            (omega arith) (omega arith) (omega arith) sized
            (subst (Holds o.source)
              (append_assoc (a.seal o.nonce (header (length p))) (a.seal (increment o.nonce) p)
                rest)
              held)

      size : size_of h.next.buf ≡ length p
      size = size_of-header h.next.buf (length p) fits head.payload

      body : Unsealed r Holds p rest h.next (read_box a r (size_of h.next.buf + a.overhead) h.next)
      body =
          read_box-Unsealed a laws r Holds D (size_of h.next.buf + a.overhead) h.next p rest
            (ap (λ k. k + a.overhead) size) (omega (arith, size))
            (omega (arith, size, head.same_size))
            (ap length head.nonce_moved ∙ length-increment o.nonce ∙ sized)
            (subst (λ m. Holds h.next.source (a.seal m p ++ rest)) (sym head.nonce_moved)
              head.rest_held)

  -- At the end of the input, between two records, `read` reports the end and changes nothing else.
  pub read_record_end :
      (o : Opener S)
      → Holds o.source []
      → ((read_record a r o).err ≡ some Error.eof)
        × ((read_record a r o).size ≡ 0)
        × Holds (read_record a r o).next.source []
        × ((read_record a r o).next.nonce ≡ o.nonce)
        × ((read_record a r o).next.buf ≡ o.buf)
        × ((read_record a r o).next.left_lo ≡ o.left_lo)
        × ((read_record a r o).next.left_hi ≡ o.left_hi)
  unfolding read_record read_box
  read_record_end o held =
      let full = read_full_lem r Holds D (2 + a.overhead) o.source [] held in
      let e : (read_full r (2 + a.overhead) o.source).err ≡ some Error.eof =
        full.1 ∙ ground arith in
      let nothing : (read_full r (2 + a.overhead) o.source).got ≡ [] =
        full.0 ∙ take_nil (2 + a.overhead) in
      rw e (
        refl,
        refl,
        subst (Holds (read_full r (2 + a.overhead) o.source).next) (drop_nil (2 + a.overhead))
            full.2,
        refl,
        ap (λ g. splice 0 g o.buf) nothing,
        refl,
        refl,
      )
