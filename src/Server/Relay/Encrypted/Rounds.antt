-- ===== src/Server/Relay/Encrypted/Rounds.antt =====
-- `WriteTo` of m_shadow/stream.go is its rounds one after the other.
use miniproxygo.Common.{
  ℕ, zero, suc, ◌+◌, ◌-◌, ◌≡◌, refl, sym, ap, ◌∙◌, subst, ◌⊎◌, inl, inr, false, Bool-cases,
  Option-cases, Option, none, some, take, slice, ltb, ◌==◌,
}
use miniproxygo.Io.{Error, Reader, Writer, is_nil}
use miniproxygo.Internal.Outcome.{returns, ◌>>=◌, >>=-returns}
use miniproxygo.Internal.Filter.{Filter}
use miniproxygo.Internal.SaltFilter.{Floats, Env}
use miniproxygo.Shadow.Aead.{Aead}
use miniproxygo.Shadow.Cipher.{Cipher}
use miniproxygo.Shadow.Writer.{forget_eof}
use miniproxygo.Shadow.Reader.{Opener, read_record}
use miniproxygo.Shadow.Reader.Whole.{read_record-bounds}
use miniproxygo.Shadow.Reader.WriteTo.{Drained, flush_leftover, drain, write_to}
use miniproxygo.Shadow.Conn.{StreamConn, Copy, with_reader, copy_out, write_conn_to}
use miniproxygo.Server.Relay.{ended, Round, copy_all}
use miniproxygo.Server.Relay.Whole.{later, last, same_start}
use miniproxygo.Server.Relay.Encrypted.{
  settle_round, reading_on, open_round, open_with, open_through, write_to_round,
}

module _ {S Q R F T : Type 0} (net : Reader S) (put : Writer S) (rand : Reader Q) (ciph : Cipher)
    (x : Floats R) (f : Filter R F) (env : Env) (sink : Writer T) where
  abbrev copies : ℕ → StreamConn S Q F → T → Round (StreamConn S Q F) T
  copies = copy_all (write_to_round net put rand ciph x f env sink)

  -- What a method has returned, as the end of a copy.
  abbrev pub finished : Aead → StreamConn S Q F → Drained S T → Round (StreamConn S Q F) T
  finished a c d = record { side = ended d.err; source = reading_on c a d.next; sink = d.sink }

  module _ (a : Aead) (c : StreamConn S Q F) where
    drain-rounds :
        (fuel n : ℕ) (o : Opener S) (t : T)
        → ltb o.left_lo o.left_hi ≡ false
        → ((drain a net sink fuel n o t).err ≡ some Error.diverged → ⊥)
        → (m : ℕ) × (copies (suc m) (reading_on c a o) t
            ≡ finished a c (drain a net sink fuel n o t))
    unfolding drain write_to_round with_reader open_round
    drain-rounds zero n o t used = λ h. absurd (h refl)
    drain-rounds (suc fuel) n o t used =
        let z = read_record a net o in
        let y = sink (take z.size z.next.buf) t in
        let still = read_record-bounds a net o ∙ used in
        elim (Bool-cases (z.size == 0)) [
          | inl nothing ↦ elim (Option-cases z.err) [
            | inl fine ↦
                rw (nothing, fine)
                  (λ h.
                    let (m, ran) = drain-rounds fuel n z.next t still h in
                    (
                      suc m,
                      later (write_to_round net put rand ciph x f env sink) (suc m)
                            (reading_on c a o) (reading_on c a z.next) t t
                            (rw (used, nothing, fine) refl)
                          ∙ ran,
                    ))
            | inr (e, failed) ↦
                rw (nothing, failed)
                  (λ h. (
                    0,
                    last (write_to_round net put rand ciph x f env sink) 0 (reading_on c a o)
                        (reading_on c a z.next) t t (forget_eof (some e))
                        (rw (used, nothing, failed) refl),
                  ))
          ]
          | inr something ↦ elim (Option-cases y.err) [
            | inr (e, refused) ↦
                rw (something, refused)
                  (λ h. (
                    0,
                    last (write_to_round net put rand ciph x f env sink) 0 (reading_on c a o)
                        (reading_on c a z.next) t y.next (some e)
                        (rw (used, something, refused) refl),
                  ))
            | inl taken ↦ elim (Option-cases z.err) [
              | inl fine ↦
                  rw (something, taken, fine)
                    (λ h.
                      let (m, ran) = drain-rounds fuel (n + y.count) z.next y.next still h in
                      (
                        suc m,
                        later (write_to_round net put rand ciph x f env sink) (suc m)
                              (reading_on c a o) (reading_on c a z.next) t y.next
                              (rw (used, something, taken, fine) refl)
                            ∙ ran,
                      ))
              | inr (e, failed) ↦
                  rw (something, taken, failed)
                    (λ h. (
                      0,
                      last (write_to_round net put rand ciph x f env sink) 0 (reading_on c a o)
                          (reading_on c a z.next) t y.next (forget_eof (some e))
                          (rw (used, something, taken, failed) refl),
                    ))
            ]
          ]
        ]

    -- The rounds of the first loop go before those of the second one.
    flush-rounds :
        (fuel n : ℕ) (o : Opener S) (t : T)
        → ((flush_leftover a net sink fuel n o t).err ≡ some Error.diverged → ⊥)
        → ((flush_leftover a net sink fuel n o t).err ≡ none)
            × (ltb
                  (flush_leftover a net sink fuel n o t).next.left_lo
                  (flush_leftover a net sink fuel n o t).next.left_hi
                ≡ false)
            × ((z : Round (StreamConn S Q F) T) (m : ℕ)
                → copies
                    (suc m)
                    (reading_on c a (flush_leftover a net sink fuel n o t).next)
                    (flush_leftover a net sink fuel n o t).sink
                  ≡ z
                → (k : ℕ) × (copies (suc k) (reading_on c a o) t ≡ z))
          ⊎ ((flush_leftover a net sink fuel n o t).err ≡ none → ⊥)
            × (k : ℕ) × (copies (suc k) (reading_on c a o) t
                ≡ finished a c (flush_leftover a net sink fuel n o t))
    unfolding flush_leftover write_to_round with_reader open_round
    flush-rounds zero n o t = λ h. absurd (h refl)
    flush-rounds (suc fuel) n o t =
        let y = sink (slice o.left_lo o.left_hi o.buf) t in
        let o' : Opener S = record o { left_lo = o.left_lo + y.count } in
        elim (Bool-cases (ltb o.left_lo o.left_hi)) [
          | inr used ↦ rw used (λ h. inl (refl, used, λ z m ran. (m, ran)))
          | inl left ↦ elim (Option-cases y.err) [
            | inr (e, refused) ↦
                rw (left, refused)
                  (λ h. inr (
                    λ q. cc (q),
                    0,
                    last (write_to_round net put rand ciph x f env sink) 0 (reading_on c a o)
                        (reading_on c a o') t y.next (some e) (rw (left, refused) refl),
                  ))
            | inl taken ↦
                rw (left, taken)
                  (λ h. elim (flush-rounds fuel (n + y.count) o' y.next h) [
                    | inl (fine, used, on) ↦ inl (
                      fine,
                      used,
                      λ z m ran.
                          let (k, all) = on z m ran in
                          (
                            suc k,
                            later (write_to_round net put rand ciph x f env sink) (suc k)
                                  (reading_on c a o) (reading_on c a o') t y.next
                                  (rw (left, taken) refl)
                                ∙ all,
                          ),
                    )
                    | inr (bad, k, all) ↦ inr (
                      bad,
                      suc k,
                      later (write_to_round net put rand ciph x f env sink) (suc k)
                            (reading_on c a o) (reading_on c a o') t y.next (rw (left, taken) refl)
                          ∙ all,
                    )
                  ])
          ]
        ]

    nil_of : {e : Option Error} {w : Error} → e ≡ some w → is_nil e ≡ false
    nil_of {e} {w} h = ap is_nil h

    write_to-rounds :
        (o : Opener S) (t : T)
        → ((write_to a net sink o t).err ≡ some Error.diverged → ⊥)
        → (k : ℕ) × (copies (suc k) (reading_on c a o) t ≡ finished a c (write_to a net sink o t))
    unfolding write_to
    write_to-rounds o t =
        let g = flush_leftover a net sink (suc (o.left_hi - o.left_lo)) 0 o t in
        let flushed = flush-rounds (suc (o.left_hi - o.left_lo)) 0 o t in
        elim (Option-cases g.err) [
          | inl fine ↦ rw fine (λ h. elim (flushed (λ e. cc (e, fine))) [
            | inl (same, used, on) ↦
                let (m, ran) =
                  drain-rounds (suc (net.budget g.next.source)) g.total g.next g.sink used h in
                on _ m ran
            | inr (bad, k, all) ↦ absurd (bad fine)
          ])
          | inr (w, failed) ↦ rw (nil_of failed) (λ h. elim (flushed h) [
            | inl (same, used, on) ↦ cc (same, failed)
            | inr (bad, k, all) ↦ (k, all)
          ])
        ]

  abbrev Ends : StreamConn S Q F → T → Copy (StreamConn S Q F) T → Type 0
  Ends c t z =
      (n : ℕ) × (copies n c t ≡ record { side = ended z.err; source = z.next; sink = z.other })

  returned_same : {z z' : Copy (StreamConn S Q F) T} → returns z ≡ returns z' → z ≡ z'
  returned_same {z} {z'} e = cc (e)

  copied_out :
      (c : StreamConn S Q F) (t : T) (z : Copy (StreamConn S Q F) T)
      (w : Option Error × StreamConn S Q F)
      → with_reader net put rand ciph x f env c ≡ returns w
      → copy_out net put rand ciph x f env sink t w ≡ returns z
      → (z.err ≡ some Error.diverged → ⊥)
      → Ends c t z
  unfolding write_to_round with_reader open_round
  copied_out c t z (some e, d) went is h = subst (Ends c t) (returned_same is) (
    1,
    last (write_to_round net put rand ciph x f env sink) 0 c d t t (some e)
        (ap (λ m. settle_round c t (m >>= open_through net put rand ciph x f env sink t)) went),
  )
  copied_out c t z (none, d) went is h = elim (Option-cases d.r) [
    | inl nothing ↦ let k = rw nothing at is in cc (k)
    | inr ((a, o), has) ↦
        let k = rw has at is in
        let same = returned_same k in
        let oo : Opener S = record o { source = d.conn } in
        let (n, ran) = write_to-rounds a d oo t (λ e. h (ap (λ y. y.err) (sym same) ∙ e)) in
        let first =
          same_start (write_to_round net put rand ciph x f env sink) n c (reading_on d a oo) t t (
            ap (λ m. settle_round c t (m >>= open_through net put rand ciph x f env sink t)) went
            ∙ ap (λ q. settle_round c t (open_with net put rand ciph x f env sink t d q)) has) in
        subst (Ends c t) same (suc n, first ∙ ran)
  ]

  -- Where `WriteTo` of an encrypted connection returns, whatever the network, the sink and the filter do,
  -- and the bounds on its loops have been enough, it has done what some number of its rounds do one
  -- after the other, with the same error and the same state of both ends.
  pub write_conn_to-rounds :
      (c : StreamConn S Q F) (t : T) (z : Copy (StreamConn S Q F) T)
      → write_conn_to net put rand ciph x f env sink t c ≡ returns z
      → (z.err ≡ some Error.diverged → ⊥)
      → Ends c t z
  unfolding write_conn_to
  write_conn_to-rounds c t z ran h =
      let (w, went, is) =
        >>=-returns (with_reader net put rand ciph x f env c)
          (copy_out net put rand ciph x f env sink t) z ran in
      copied_out c t z w went is h
