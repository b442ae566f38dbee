-- ===== src/Shadow/Conn/EndToEnd.antt =====
-- Both ends of an encrypted connection of m_shadow/stream.go, and what the salts are good for.
use miniproxygo.Common.{
  ℕ, ◌<◌, ◌≡◌, refl, sym, ap, ◌∙◌, subst, inr, true, false, Option, none, some, List, [], ◌∷◌, ◌++◌,
  length, take-append, length-append, arith,
}
use miniproxygo.Io.{Error, ok, Reader, Writer, Delivers, read_full}
use miniproxygo.Io.Full.{read_full_ok}
use miniproxygo.Io.Network.{Conn, network, send, Incoming, Outgoing, network-Delivers, send-Sends}
use miniproxygo.Internal.Outcome.{Outcome, returns, ◌>>=◌}
use miniproxygo.Internal.Filter.{Filter}
use miniproxygo.Internal.SaltFilter.{Floats, Env, Salts, check_salt}
use miniproxygo.Internal.SaltFilter.Singleton.{check_salt_again}
use miniproxygo.Shadow.Aead.{Aead, IsAead}
use miniproxygo.Shadow.Frame.{concat}
use miniproxygo.Shadow.Cipher.{
  Cipher, Crypto, MetaCipher, cipher_of, encrypter, decrypter, salt_size, salt_size_bounds,
}
use miniproxygo.Shadow.Conn.{
  StreamConn, unless_set, init_reader, accept_salt, read_conn, with_reader, after_reader,
}
use miniproxygo.Shadow.Conn.Reading.{Handed, Arriving, read_conn-Handed}
use miniproxygo.Shadow.Conn.Writing.{write_each, Leaving, write_each-Stream}

pub reached :
    {A : Type 0} (a b : A)
    → ◌≡◌ {A = Outcome (Option Error × A)} (returns (none, a)) (returns (none, b))
    → a ≡ b
reached a b e = cc

-- Two connections of the same cipher, one in each process: what any calls of `Write` on the one put on
-- the wire, delivered to the other in any pieces, is what `Read` there hands out, from the first call
-- on, provided that the salt has a cipher and is new to the reader's process.
pub read_conn-write_each :
    {Q R F Block : Type 0} (rand : Reader Q) (crypto : Crypto Block) (m : MetaCipher) (x : Floats R)
    (f : Filter R F) (env env' : Env) (a : Aead) (laws : IsAead a) (b : List ℕ) (bs : List (List ℕ))
    (salt : List ℕ) (c c' d : StreamConn Conn Q F) (salts : Salts F) (n : ℕ)
    → Leaving network send rand (cipher_of crypto m) x f env a c salt
    → Outgoing c.conn []
    → write_each network send rand (cipher_of crypto m) x f env (b ∷ bs) c ≡ returns (none, c')
    → d.r ≡ none
    → Incoming d.conn c'.conn.outgoing
    → length salt ≡ salt_size m
    → check_salt x f env' salt d.salts ≡ returns (false, salts)
    → 0 < n
    → Handed network send rand
        (cipher_of crypto m)
        x
        f
        env'
        Incoming
        a
        d
        n
        (concat (b ∷ bs))
        (read_conn network send rand (cipher_of crypto m) x f env' n d)
read_conn-write_each rand crypto m x f env env' a laws b bs salt c c' d salts n leaving quiet wrote
      unread arrives sized fresh pos =
    let ciph = cipher_of crypto m in
    let (c1, ran, wire, sent, stream) =
      write_each-Stream network send rand ciph x f env Outgoing send-Sends a laws b bs c salt []
        leaving quiet in
    let same : c1.conn.outgoing ≡ c'.conn.outgoing =
      ap (λ z. z.conn.outgoing) (reached c1 c' (sym ran ∙ wrote)) in
    read_conn-Handed network send rand ciph x f env' Incoming network-Delivers a laws n d
      (concat (b ∷ bs)) pos
      (inr (record {
        salt = salt;
        wire = wire;
        salts = salts;
        nothing_read = unread;
        salt_fits = sized;
        not_empty = omega (arith, (salt_size_bounds m).0);
        keyed = unfold encrypter decrypter in leaving.keyed;
        new_salt = fresh;
        input = (arrives.0, arrives.1 ∙ sym same ∙ sent.1);
        carried = stream;
      }))

module _ {S Q R F : Type 0} (net : Reader S) (put : Writer S) (rand : Reader Q) (ciph : Cipher)
    (x : Floats R) (f : Filter R F) (env : Env) (Holds : S → List ℕ → Type 0)
    (D : Delivers net Holds) where
  -- A connection whose input begins with a salt that the filter reports: `Read` hands out nothing
  -- and fails with `ErrRepeatedSalt`, however long the buffer is.
  pub repeated_salt_refused :
      (a : Aead) (c : StreamConn S Q F) (salt rest : List ℕ) (salts : Salts F) (n : ℕ)
      → c.r ≡ none
      → length salt ≡ ciph.salt_size
      → Holds c.conn (salt ++ rest)
      → ciph.decrypter salt ≡ ok a
      → check_salt x f env salt c.salts ≡ returns (true, salts)
      → (c' : StreamConn S Q F) × (read_conn net put rand ciph x f env n c
          ≡ returns (record { got = []; err = some Error.repeated_salt; next = c' }))
        × (c'.r ≡ none)
  unfolding read_conn with_reader init_reader after_reader
  repeated_salt_refused a c salt rest salts n unread sized input keyed seen =
      let y = read_full net ciph.salt_size c.conn in
      let full =
        read_full_ok net Holds D ciph.salt_size c.conn (salt ++ rest) input
          (omega (arith, length-append salt rest, sized)) in
      let got : y.got ≡ salt = full.0 ∙ take-append ciph.salt_size salt rest (sym sized) in
      let c1 = record c { conn = y.next } in
      let c2 = record c1 { salts = salts } in
      let accept = accept_salt net put rand ciph x f env in
      let made : init_reader net put rand ciph x f env c ≡ returns (some Error.repeated_salt, c2) =
        rw full.1 (
          ap (λ g. accept (ciph.decrypter g) g c1) got
          ∙ ap (λ k. accept k salt c1) keyed
          ∙ rw seen refl) in
      (
        c2,
        ap (λ m. m >>= after_reader net put rand ciph x f env n)
            (ap
                (λ m.
                  unless_set net put rand ciph x f env m c
                    (init_reader net put rand ciph x f env c))
                unread
              ∙ made),
        unread,
      )

  -- A stream that has been accepted once is accepted again: a second connection on which the same
  -- bytes arrive, once the first one has checked its salt, hands out the same plaintext.
  pub replay_accepted :
      (a : Aead) (laws : IsAead a) (bs : List ℕ) (c d : StreamConn S Q F) (n : ℕ)
      → (first : Arriving net put rand ciph x f env Holds a c bs) → d.r ≡ none
      → Holds d.conn (first.salt ++ first.wire)
      → d.salts ≡ first.salts
      → 0 < n
      → Handed net put rand ciph x f env Holds a d n bs (read_conn net put rand ciph x f env n d)
  replay_accepted a laws bs c d n first unread replayed salts pos =
      read_conn-Handed net put rand ciph x f env Holds D a laws n d bs pos (
        inr (record {
          salt = first.salt;
          wire = first.wire;
          salts = first.salts;
          nothing_read = unread;
          salt_fits = first.salt_fits;
          not_empty = first.not_empty;
          keyed = first.keyed;
          new_salt =
              subst (λ z. check_salt x f env first.salt z ≡ returns (false, first.salts))
                (sym salts)
                (check_salt_again x f env env first.salt c.salts first.salts false first.new_salt);
          input = replayed;
          carried = first.carried;
        }))
