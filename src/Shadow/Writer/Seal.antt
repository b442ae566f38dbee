-- ===== src/Shadow/Writer/Seal.antt =====
-- The encryption in place: the two boxes meet exactly, and neither overwrites the other's plaintext.
use miniproxygo.Common.{
  ℕ, ◌+◌, ◌-◌, ◌≤◌, ◌≡◌, refl, ap, ap₂, ◌∙◌, List, ◌++◌, length, take, slice, splice, arith,
  length-splice, take-splice, drop-splice, slice-splice,
}
use miniproxygo.Shadow.Aead.{Aead, IsAead}
use miniproxygo.Shadow.Nonce.{increment, length-increment}
use miniproxygo.Shadow.Frame.{header, payload_size_mask, box}
use miniproxygo.Shadow.Writer.{Sealer, seal_record, frame_of, with_header, with_box}

-- What the methods of a writer rely on, and keep: the sizes of its nonce and of its buffer.
pub record IsReady (a : Aead) (w : Sealer) : Type 0 where
  pub nonce_fits : length w.nonce ≡ a.nonce_size
  pub buf_fits : length w.buf ≡ 2 + a.overhead + payload_size_mask + a.overhead

module _ (a : Aead) (laws : IsAead a) where
  -- What `w.buf` holds after each step of a round, for `got` that fits a record.
  module _ (got nonce buf : List ℕ) (fits : length got ≤ payload_size_mask)
      (sized : length nonce ≡ a.nonce_size)
      (room : length buf ≡ 2 + a.overhead + payload_size_mask + a.overhead) where
    step1 : length (splice (2 + a.overhead) got buf) ≡ length buf
    step1 = length-splice (2 + a.overhead) got buf (omega arith)

    step2 : length (with_header a got buf) ≡ length buf
    step2 =
        length-splice 0 (header (length got)) (splice (2 + a.overhead) got buf)
          (omega (arith, step1))
        ∙ step1

    header_read : take 2 (with_header a got buf) ≡ header (length got)
    header_read =
        take-splice 2 0 (header (length got)) (splice (2 + a.overhead) got buf) (omega arith)
          (omega arith)

    sealed : List ℕ
    sealed = a.seal nonce (header (length got))

    length-sealed : length sealed ≡ 2 + a.overhead
    unfolding sealed
    length-sealed = laws.length-seal nonce (header (length got)) sized

    box_written : with_box a nonce (with_header a got buf) ≡ splice 0 sealed (with_header a got buf)
    unfolding sealed
    box_written = ap (λ h. splice 0 (a.seal nonce h) (with_header a got buf)) header_read

    -- The plaintext of the payload is still where `r.Read` has put it.
    payload_read :
        slice
          (2 + a.overhead)
          (2 + a.overhead + length got)
          (with_box a nonce (with_header a got buf))
        ≡ got
    payload_read =
        ap (slice (2 + a.overhead) (2 + a.overhead + length got)) box_written
        ∙ ap (take (2 + a.overhead + length got - (2 + a.overhead))) (
            drop-splice (2 + a.overhead) 0 sealed (with_header a got buf) (omega arith)
              (omega (arith, length-sealed))
            ∙ drop-splice (2 + a.overhead) 0 (header (length got)) (splice (2 + a.overhead) got buf)
                (omega arith) (omega arith))
        ∙ slice-splice (2 + a.overhead) (2 + a.overhead + length got) got buf (omega arith) refl

    length-box : length (with_box a nonce (with_header a got buf)) ≡ length buf
    length-box =
        ap length box_written
        ∙ length-splice 0 sealed (with_header a got buf) (omega (arith, length-sealed, step2))
        ∙ step2

  -- The bytes that a round writes are the record for what it has read; the writer stays usable, and
  -- its nonce has moved on by two.
  pub seal_record-box :
      (got : List ℕ) (w : Sealer)
      → length got ≤ payload_size_mask
      → IsReady a w
      → (frame_of a (length got) (seal_record a got w) ≡ box a w.nonce got)
        × ((seal_record a got w).nonce ≡ increment (increment w.nonce))
        × IsReady a (seal_record a got w)
  unfolding seal_record box sealed
  seal_record-box got w fits ready =
      let nonce' = increment w.nonce in
      let sized : length nonce' ≡ a.nonce_size = length-increment w.nonce ∙ ready.nonce_fits in
      let read = payload_read got w.nonce w.buf fits ready.nonce_fits ready.buf_fits in
      let size = length-box got w.nonce w.buf fits ready.nonce_fits ready.buf_fits in
      let base = with_box a w.nonce (with_header a got w.buf) in
      let plain = slice (2 + a.overhead) (2 + a.overhead + length got) base in
      let grown : length (a.seal nonce' plain) ≡ length got + a.overhead =
        laws.length-seal nonce' plain sized ∙ ap (λ l. length l + a.overhead) read in
      (
        take-splice (2 + a.overhead + length got + a.overhead) (2 + a.overhead)
              (a.seal nonce' plain) base (omega arith) (omega arith)
            ∙ ap₂ (λ l r. l ++ a.seal nonce' r)
                (ap (take (2 + a.overhead))
                    (box_written got w.nonce w.buf fits ready.nonce_fits ready.buf_fits)
                  ∙ take-splice (2 + a.overhead) 0 (a.seal w.nonce (header (length got)))
                      (with_header a got w.buf) (omega arith)
                      (omega (
                        arith,
                        length-sealed got w.nonce w.buf fits ready.nonce_fits ready.buf_fits,
                      )))
                read,
        refl,
        record {
          nonce_fits = length-increment nonce' ∙ sized;
          buf_fits =
              length-splice (2 + a.overhead) (a.seal nonce' plain) base (omega arith)
              ∙ size
              ∙ ready.buf_fits;
        },
      )
