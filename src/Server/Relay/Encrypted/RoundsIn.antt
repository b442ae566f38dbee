-- ===== src/Server/Relay/Encrypted/RoundsIn.antt =====
-- `ReadFrom` of m_shadow/stream.go is its rounds one after the other.
use miniproxygo.Common.{
  ℕ, zero, suc, ◌+◌, ◌≡◌, refl, sym, ap, ◌∙◌, subst, inl, inr, Bool-cases, Option-cases, Option,
  none, some, length, ◌==◌,
}
use miniproxygo.Io.{Error, Reader, Writer}
use miniproxygo.Internal.Outcome.{returns, ◌>>=◌, >>=-returns}
use miniproxygo.Internal.Filter.{Filter}
use miniproxygo.Internal.SaltFilter.{Floats, Env}
use miniproxygo.Shadow.Aead.{Aead}
use miniproxygo.Shadow.Frame.{payload_size_mask}
use miniproxygo.Shadow.Cipher.{Cipher}
use miniproxygo.Shadow.Writer.{Sealer, Pumped, forget_eof, seal_record, frame_of, pump, read_from}
use miniproxygo.Shadow.Conn.{StreamConn, Copy, with_writer, copy_in, read_conn_from}
use miniproxygo.Server.Relay.{ended, Round, copy_all}
use miniproxygo.Server.Relay.Whole.{later, last, same_start}
use miniproxygo.Server.Relay.Encrypted.{
  settle_round, seal_round, seal_with, seal_through, read_from_round,
}

module _ {S Q R F T : Type 0} (net : Reader S) (put : Writer S) (rand : Reader Q) (ciph : Cipher)
    (x : Floats R) (f : Filter R F) (env : Env) (source : Reader T) where
  abbrev copy : T → StreamConn S Q F → Round T (StreamConn S Q F)
  copy = read_from_round net put rand ciph x f env source

  abbrev copies : ℕ → T → StreamConn S Q F → Round T (StreamConn S Q F)
  copies = copy_all copy

  -- The connection with its writer in the state `w`.
  abbrev writing_on : StreamConn S Q F → Aead → Sealer → S → StreamConn S Q F
  writing_on c a w s = record c { conn = s; w = some (a, w) }

  abbrev finished : Aead → StreamConn S Q F → Pumped T S → Round T (StreamConn S Q F)
  finished a c y = record {
    side = ended y.err;
    source = y.source;
    sink = writing_on c a y.cipher y.sink;
  }

  module _ (a : Aead) (c : StreamConn S Q F) where
    pump-rounds :
        (fuel n : ℕ) (w : Sealer) (t : T) (s : S)
        → ((pump a source put fuel n w t s).err ≡ some Error.diverged → ⊥)
        → (m : ℕ) × (copies (suc m) t (writing_on c a w s)
            ≡ finished a c (pump a source put fuel n w t s))
    unfolding pump read_from_round with_writer seal_round
    pump-rounds zero n w t s = λ h. absurd (h refl)
    pump-rounds (suc fuel) n w t s =
        let z = source.read payload_size_mask t in
        let w' = seal_record a z.got w in
        let y = put (frame_of a (length z.got) w') s in
        let c1 = writing_on c a w s in
        let c2 = writing_on c a w' y.next in
        elim (Bool-cases (length z.got == 0)) [
          | inl nothing ↦ elim (Option-cases z.err) [
            | inl fine ↦
                rw (nothing, fine)
                  (λ h.
                    let (m, ran) = pump-rounds fuel n w z.next s h in
                    (suc m, later copy (suc m) t z.next c1 c1 (rw (nothing, fine) refl) ∙ ran))
            | inr (e, failed) ↦
                rw (nothing, failed)
                  (λ h. (
                    0,
                    last copy 0 t z.next c1 c1 (forget_eof (some e)) (rw (nothing, failed) refl),
                  ))
          ]
          | inr something ↦ elim (Option-cases y.err) [
            | inr (e, refused) ↦
                rw (something, refused)
                  (λ h. (0, last copy 0 t z.next c1 c2 (some e) (rw (something, refused) refl)))
            | inl taken ↦ elim (Option-cases z.err) [
              | inl fine ↦
                  rw (something, taken, fine)
                    (λ h.
                      let (m, ran) = pump-rounds fuel (n + length z.got) w' z.next y.next h in
                      (
                        suc m,
                        later copy (suc m) t z.next c1 c2 (rw (something, taken, fine) refl) ∙ ran,
                      ))
              | inr (e, failed) ↦
                  rw (something, taken, failed)
                    (λ h. (
                      0,
                      last copy 0 t z.next c1 c2 (forget_eof (some e))
                          (rw (something, taken, failed) refl),
                    ))
            ]
          ]
        ]

    read_from-rounds :
        (w : Sealer) (t : T) (s : S)
        → ((read_from a source put w t s).err ≡ some Error.diverged → ⊥)
        → (m : ℕ) × (copies (suc m) t (writing_on c a w s)
            ≡ finished a c (read_from a source put w t s))
    unfolding read_from
    read_from-rounds w t s = pump-rounds (suc (source.budget t)) 0 w t s

  abbrev Ends : T → StreamConn S Q F → Copy (StreamConn S Q F) T → Type 0
  Ends t c z =
      (n : ℕ) × (copies n t c ≡ record { side = ended z.err; source = z.other; sink = z.next })

  returned_same : {z z' : Copy (StreamConn S Q F) T} → returns z ≡ returns z' → z ≡ z'
  returned_same {z} {z'} e = cc (e)

  copied_in :
      (t : T) (c : StreamConn S Q F) (z : Copy (StreamConn S Q F) T)
      (w : Option Error × StreamConn S Q F)
      → with_writer net put rand ciph x f env c ≡ returns w
      → copy_in net put rand ciph x f env source t w ≡ returns z
      → (z.err ≡ some Error.diverged → ⊥)
      → Ends t c z
  unfolding read_from_round with_writer seal_round
  copied_in t c z (some e, d) went is h = subst (Ends t c) (returned_same is) (
    1,
    last copy 0 t t c d (some e)
        (ap (λ m. settle_round t c (m >>= seal_through net put rand ciph x f env source t)) went),
  )
  copied_in t c z (none, d) went is h = elim (Option-cases d.w) [
    | inl nothing ↦ let k = rw nothing at is in cc (k)
    | inr ((a, w), has) ↦
        let k = rw has at is in
        let same = returned_same k in
        let (n, ran) = read_from-rounds a d w t d.conn (λ e. h (ap (λ y. y.err) (sym same) ∙ e)) in
        let first = same_start copy n t t c (writing_on d a w d.conn) (
          ap (λ m. settle_round t c (m >>= seal_through net put rand ciph x f env source t)) went
          ∙ ap (λ q. settle_round t c (seal_with net put rand ciph x f env source t d q)) has
          ∙ ap (λ q. seal_round net put rand ciph x f env source a w t (record d { w = q })) has) in
        subst (Ends t c) same (suc n, first ∙ ran)
  ]

  -- Where `ReadFrom` of an encrypted connection returns, whatever the network, the source and the filter do,
  -- and the bounds on its loops have been enough, it has done what some number of its rounds do one
  -- after the other, with the same error and the same state of both ends.
  pub read_conn_from-rounds :
      (t : T) (c : StreamConn S Q F) (z : Copy (StreamConn S Q F) T)
      → read_conn_from net put rand ciph x f env source t c ≡ returns z
      → (z.err ≡ some Error.diverged → ⊥)
      → Ends t c z
  unfolding read_conn_from
  read_conn_from-rounds t c z ran h =
      let (w, went, is) =
        >>=-returns (with_writer net put rand ciph x f env c)
          (copy_in net put rand ciph x f env source t) z ran in
      copied_in t c z w went is h
