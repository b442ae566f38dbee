-- ===== src/Shadow/Reader/Stream.antt =====
-- The decrypting reader is a reader of the plaintext: whatever sizes it is asked for and whatever
-- pieces the ciphertext comes in, it delivers the payloads in a row and then the end of the input.
use miniproxygo.Common.{
  ℕ, ◌+◌, ◌-◌, ◌^◌, min, ◌≤◌, ◌<◌, ◌≡◌, refl, sym, ap, ap₂, ◌∙◌, subst, List, [], ◌∷◌, ◌++◌, length,
  take, drop, slice, arith, drop-append_le, drop-take, take-take, take-append-drop, append_assoc,
  length-take, length-drop, some, none, All, ltb, ltb→lt, lt→ltb, ltb→ge, Bool-cases, inl, inr, ◌⊎◌,
  drop_all, drop-drop,
}
use miniproxygo.Io.{Error, Reader, Step, Delivers}
use miniproxygo.Shadow.Aead.{Aead, IsAead}
use miniproxygo.Shadow.Nonce.{increment, length-increment}
use miniproxygo.Shadow.Frame.{payload_size_mask, concat, IsPayload, frames}
use miniproxygo.Shadow.Reader.{Opener, Opened, read_record, read_plain, hand_over, opener}
use miniproxygo.Shadow.Reader.Record.{read_record-Recovered, read_record_end}

-- `bs` is what the reader has still to deliver: the rest of the record in its buffer, and the
-- records that its source holds under the nonces to come.
pub record Carries {S : Type 0} (a : Aead) (Holds : S → List ℕ → Type 0) (o : Opener S)
    (bs : List ℕ) : Type 0 where
  pub records : List (List ℕ)
  pub payloads : All IsPayload records
  pub plain : slice o.left_lo o.left_hi o.buf ++ concat records ≡ bs
  pub ciphertext : Holds o.source (frames a o.nonce records)
  pub nonce_fits : length o.nonce ≡ a.nonce_size
  pub buf_fits : length o.buf ≡ payload_size_mask + a.overhead
  pub left_fits : o.left_hi ≤ length o.buf

-- Handing out the first `m` bytes of a part `l` of the plaintext leaves the rest of it in front.
hand_out :
    (m : ℕ) (l more bs : List ℕ)
    → m ≤ length l
    → l ++ more ≡ bs
    → (take m l ++ drop (length (take m l)) bs ≡ bs)
      × (drop m l ++ more ≡ drop (length (take m l)) bs)
hand_out m l more bs h e =
    let size : length (take m l) ≡ m = omega (arith, length-take m l) in
    let behind : drop m l ++ more ≡ drop (length (take m l)) bs =
      sym (drop-append_le m l more h) ∙ ap₂ drop (sym size) e in
    (
      ap (λ r. take m l ++ r) (sym behind)
          ∙ sym (append_assoc (take m l) (drop m l) more)
          ∙ ap (λ r. r ++ more) (take-append-drop m l)
          ∙ e,
      behind,
    )

pub slice_none : (lo hi : ℕ) (buf more : List ℕ) → hi ≤ lo → slice lo hi buf ++ more ≡ more
slice_none lo hi buf more h =
    let e : hi - lo ≡ 0 = omega arith in ap (λ m. take m (drop lo buf) ++ more) e

-- Two slices of the buffer that begin where another slice does, and where a part of it ends.
slice_front :
    (lo hi m : ℕ) (buf : List ℕ) → m ≤ hi - lo → slice lo (lo + m) buf ≡ take m (slice lo hi buf)
slice_front lo hi m buf h =
    let e : lo + m - lo ≡ m = omega arith in
    ap (λ k. take k (drop lo buf)) e ∙ sym (take-take m (hi - lo) (drop lo buf) h)

slice_back : (lo hi m : ℕ) (buf : List ℕ) → slice (lo + m) hi buf ≡ drop m (slice lo hi buf)
slice_back lo hi m buf =
    let e : hi - (lo + m) ≡ hi - lo - m = omega arith in
    ap₂ take e (sym (drop-drop m lo buf)) ∙ sym (drop-take m (hi - lo) (drop lo buf))

module _ (a : Aead) (laws : IsAead a) {S : Type 0} (r : Reader S) (Holds : S → List ℕ → Type 0)
    (D : Delivers r Holds) where
  -- A call that finds bytes of the last record in the buffer.
  leftover-Step :
      (n : ℕ) (o : Opener S) (bs : List ℕ)
      → 0 < n
      → o.left_lo < o.left_hi
      → Carries a Holds o bs
      → Step (opener a r) (Carries a Holds) n o bs (read_plain a r n o)
  unfolding opener read_plain
  leftover-Step n o bs pos some_left c = rw (lt→ltb o.left_lo o.left_hi some_left) (record {
    fits = omega (arith, length-take (o.left_lo + m - o.left_lo) (drop o.left_lo o.buf));
    in_order = rw front out.0;
    holds = record {
      records = c.records;
      payloads = c.payloads;
      plain = rw (slice_back o.left_lo o.left_hi m o.buf, front) out.1;
      ciphertext = c.ciphertext;
      nonce_fits = c.nonce_fits;
      buf_fits = c.buf_fits;
      left_fits = c.left_fits;
    };
    verdict = inl (refl, omega arith);
  })
    where
      m : ℕ
      m = min n (o.left_hi - o.left_lo)

      l : List ℕ
      l = slice o.left_lo o.left_hi o.buf

      front : slice o.left_lo (o.left_lo + m) o.buf ≡ take m l
      front = slice_front o.left_lo o.left_hi m o.buf (omega arith)

      out :
          (take m l ++ drop (length (take m l)) bs ≡ bs)
          × (drop m l ++ concat c.records ≡ drop (length (take m l)) bs)
      out =
          hand_out m l (concat c.records) bs
            (omega (
              arith,
              length-take (o.left_hi - o.left_lo) (drop o.left_lo o.buf),
              length-drop o.left_lo o.buf,
              c.left_fits,
            ))
            c.plain

  -- What a call of `read` has left in the buffer, handed out to a caller that wants `n` bytes.
  hand_over-Step :
      (n : ℕ) (o : Opener S) (bs more : List ℕ) (x : Opened S)
      → take x.size x.next.buf ++ more ≡ bs
      → x.size ≤ length x.next.buf
      → x.next.left_hi ≤ x.next.left_lo
      → Carries a Holds x.next more
      → (x.err ≡ none) × (r.budget x.next.source < r.budget o.source) × (x.size < 2 ^ 14)
        ⊎ (x.err ≡ some Error.eof) × (bs ≡ [])
      → Step (opener a r) (Carries a Holds) n o bs (hand_over a r n x)
  unfolding opener
  hand_over-Step n o bs more x e inside used c v = elim (Bool-cases (ltb k x.size)) [
    | inl part ↦ rw part (record {
      fits = omega (arith, length-take k x.next.buf);
      in_order = rw front out.0;
      holds = record {
        records = c.records;
        payloads = c.payloads;
        plain = rw (← drop-take k x.size x.next.buf, front, nothing_left) out.1;
        ciphertext = c.ciphertext;
        nonce_fits = c.nonce_fits;
        buf_fits = c.buf_fits;
        left_fits = inside;
      };
      verdict = elim v [ inl (ok, less, small) ↦ inl (ok, omega arith) | inr w ↦ inr w ];
    })
    | inr all ↦ rw all (record {
      fits = omega (arith, length-take k x.next.buf);
      in_order = rw front out.0;
      holds = record {
        records = c.records;
        payloads = c.payloads;
        plain =
            c.plain
            ∙ rw front (
                ap (λ l. l ++ more)
                  (sym (
                    drop_all k p
                      (omega (arith, length-take x.size x.next.buf, ltb→ge k x.size all))))
                ∙ out.1);
        ciphertext = c.ciphertext;
        nonce_fits = c.nonce_fits;
        buf_fits = c.buf_fits;
        left_fits = c.left_fits;
      };
      verdict = elim v [ inl (ok, less, small) ↦ inl (ok, omega arith) | inr w ↦ inr w ];
    })
  ]
    where
      k : ℕ
      k = min n x.size

      p : List ℕ
      p = take x.size x.next.buf

      front : take k x.next.buf ≡ take k p
      front = sym (take-take k x.size x.next.buf (omega arith))

      out :
          (take k p ++ drop (length (take k p)) bs ≡ bs)
          × (drop k p ++ more ≡ drop (length (take k p)) bs)
      out = hand_out k p more bs (omega (arith, length-take x.size x.next.buf)) e

      nothing_left : concat c.records ≡ more
      nothing_left =
          sym (slice_none x.next.left_lo x.next.left_hi x.next.buf (concat c.records) used)
          ∙ c.plain

  -- A call that reads a record, or finds the input at its end.
  pub record-Step :
      (n : ℕ) (o : Opener S) (bs : List ℕ) (rs : List (List ℕ))
      → o.left_hi ≤ o.left_lo
      → Carries a Holds o bs
      → concat rs ≡ bs
      → All IsPayload rs
      → Holds o.source (frames a o.nonce rs)
      → Step (opener a r) (Carries a Holds) n o bs (hand_over a r n (read_record a r o))
  unfolding frames
  record-Step n o bs [] none_left c e ps held =
      let (ended, empty, source, nonce, buf, lo, hi) = read_record_end a laws r Holds D o held in
      hand_over-Step n o bs bs (read_record a r o)
        (ap (λ m. take m (read_record a r o).next.buf ++ bs) empty) (omega (arith, empty))
        (omega (arith, lo, hi))
        (record {
          records = [];
          payloads = tt;
          plain =
              slice_none (read_record a r o).next.left_lo (read_record a r o).next.left_hi
                (read_record a r o).next.buf [] (omega (arith, lo, hi))
              ∙ e;
          ciphertext = source;
          nonce_fits = ap length nonce ∙ c.nonce_fits;
          buf_fits = ap length buf ∙ c.buf_fits;
          left_fits = omega (arith, ap length buf, hi, c.left_fits);
        })
        (inr (ended, sym e))
  record-Step n o bs (p ∷ rs) none_left c e ps held =
      let got =
        read_record-Recovered a laws r Holds D o p (frames a (increment (increment o.nonce)) rs)
          ps.0 c.nonce_fits c.buf_fits held in
      hand_over-Step n o bs (concat rs) (read_record a r o)
        (ap (λ l. l ++ concat rs)
            (ap (λ m. take m (read_record a r o).next.buf) got.size ∙ got.payload)
          ∙ e)
        (omega (arith, got.size, got.same_size, ps.0, c.buf_fits))
        (omega (arith, got.same_lo, got.same_hi))
        (record {
          records = rs;
          payloads = ps.1;
          plain =
              slice_none (read_record a r o).next.left_lo (read_record a r o).next.left_hi
                (read_record a r o).next.buf (concat rs) (omega (arith, got.same_lo, got.same_hi));
          ciphertext =
              subst (λ m. Holds (read_record a r o).next.source (frames a m rs))
                (sym got.nonce_moved) got.rest_held;
          nonce_fits =
              ap length got.nonce_moved
              ∙ length-increment (increment o.nonce)
              ∙ length-increment o.nonce
              ∙ c.nonce_fits;
          buf_fits = got.same_size ∙ c.buf_fits;
          left_fits = omega (arith, got.same_size, got.same_hi, c.left_fits);
        })
        (inl (got.no_error, got.spent, omega (arith, got.size, ps.0)))

  -- Over a source that keeps the contract of a reader and carries records sealed under consecutive
  -- nonces, the decrypting reader keeps that contract for the plaintext.
  pub opener-Delivers : Delivers (opener a r) (Carries a Holds)
  opener-Delivers n o bs pos c = elim (Bool-cases (ltb o.left_lo o.left_hi)) [
    | inl left ↦ unfold opener in leftover-Step n o bs pos (ltb→lt o.left_lo o.left_hi left) c
    | inr used ↦
        unfold opener read_plain in
        rw used (
          record-Step n o bs c.records (ltb→ge o.left_lo o.left_hi used) c
            (sym (
                slice_none o.left_lo o.left_hi o.buf (concat c.records)
                  (ltb→ge o.left_lo o.left_hi used))
              ∙ c.plain)
            c.payloads c.ciphertext)
  ]
