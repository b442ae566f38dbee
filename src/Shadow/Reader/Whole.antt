-- ===== src/Shadow/Reader/Whole.antt =====
-- A record that the `reader` of m_shadow/stream.go has read, as a whole.
use miniproxygo.Common.{
  ltb, Bool, ◌∙◌, ℕ, ◌+◌, ◌≤◌, ◌≡◌, refl, ap, inl, inr, Bool-cases, Option-cases, take, splice,
  ge→ltb, arith, min,
}
use miniproxygo.Io.{Reader, is_nil, read_full}
use miniproxygo.Shadow.Aead.{Aead}
use miniproxygo.Shadow.Frame.{payload_size_mask}
use miniproxygo.Shadow.Reader.{Opener, Opened, size_of, read_box, read_record, hand_over}

module _ (a : Aead) {S : Type 0} (r : Reader S) where
  read_box_size : (n : ℕ) (o : Opener S) → (read_box a r n o).size ≡ 0
  unfolding read_box
  read_box_size n o =
      let y = read_full r n o.source in
      elim (Bool-cases (is_nil y.err)) [
        | inl fine ↦ elim (Option-cases (a.open_box o.nonce (take n (splice 0 y.got o.buf)))) [
          | inl refused ↦ rw (fine, refused) refl
          | inr (plain, opened) ↦ rw (fine, opened) refl
        ]
        | inr failed ↦ rw failed refl
      ]

  -- A record has at most 16383 bytes, whatever its header says.
  pub read_record_size : (o : Opener S) → (read_record a r o).size ≤ payload_size_mask
  unfolding read_record
  read_record_size o =
      let h = read_box a r (2 + a.overhead) o in
      let p = read_box a r (size_of h.next.buf + a.overhead) h.next in
      elim (Bool-cases (is_nil h.err)) [
        | inl fine ↦ elim (Bool-cases (is_nil p.err)) [
          | inl whole ↦ rw (fine, whole) (omega arith)
          | inr cut ↦
              rw (fine, cut) (omega (arith, read_box_size (size_of h.next.buf + a.overhead) h.next))
        ]
        | inr failed ↦ rw failed (omega (arith, read_box_size (2 + a.overhead) o))
      ]

  -- What fits is handed out whole.
  pub hand_over_all :
      (n : ℕ) (z : Opened S)
      → z.size ≤ n
      → ((hand_over a r n z).got ≡ take z.size z.next.buf) × ((hand_over a r n z).next ≡ z.next)
  hand_over_all n z fits =
      let k : min n z.size ≡ z.size = omega arith in
      (ap (λ m. take m z.next.buf) k, rw (ge→ltb (min n z.size) z.size (omega arith)) refl)

  -- Whether there is a `leftover`: a record leaves it alone.
  abbrev pub bounds : Opener S → Bool
  bounds o = ltb o.left_lo o.left_hi

  read_box-bounds : (n : ℕ) (o : Opener S) → bounds (read_box a r n o).next ≡ bounds o
  unfolding read_box
  read_box-bounds n o =
      let y = read_full r n o.source in
      elim (Bool-cases (is_nil y.err)) [
        | inl fine ↦ elim (Option-cases (a.open_box o.nonce (take n (splice 0 y.got o.buf)))) [
          | inl refused ↦ rw (fine, refused) refl
          | inr (plain, opened) ↦ rw (fine, opened) refl
        ]
        | inr failed ↦ rw failed refl
      ]

  pub read_record-bounds : (o : Opener S) → bounds (read_record a r o).next ≡ bounds o
  unfolding read_record
  read_record-bounds o =
      let h = read_box a r (2 + a.overhead) o in
      let p = read_box a r (size_of h.next.buf + a.overhead) h.next in
      let first = read_box-bounds (2 + a.overhead) o in
      let both = read_box-bounds (size_of h.next.buf + a.overhead) h.next ∙ first in
      elim (Bool-cases (is_nil h.err)) [
        | inl fine ↦ elim (Bool-cases (is_nil p.err)) [
          | inl whole ↦ rw (fine, whole) both
          | inr cut ↦ rw (fine, cut) both
        ]
        | inr failed ↦ rw failed first
      ]
