-- ===== src/Server/Relay/Encrypted/In.antt =====
-- `io.Copy` of m_server/socks_server.go to a `streamConn`, by the `ReadFrom` of m_shadow/stream.go.
use miniproxygo.Common.{
  ℕ, ◌<◌, ◌≡◌, refl, sym, ap, ◌∙◌, subst, inl, inr, false, Bool-cases, some, List, [], length, drop,
  append-nil, ◌==◌, ==_iff, arith,
}
use miniproxygo.Io.{Reader, Writer}
use miniproxygo.Io.Full.{prefix_nil}
use miniproxygo.Io.Network.{Duplex}
use miniproxygo.Internal.Outcome.{◌>>=◌}
use miniproxygo.Internal.Filter.{Filter}
use miniproxygo.Internal.SaltFilter.{Floats, Env}
use miniproxygo.Shadow.Aead.{Aead, IsAead}
use miniproxygo.Shadow.Frame.{payload_size_mask}
use miniproxygo.Shadow.Cipher.{Cipher}
use miniproxygo.Shadow.Writer.{Sealer}
use miniproxygo.Shadow.Conn.{StreamConn, conn_budget}
use miniproxygo.Shadow.Conn.Both.{Both}
use miniproxygo.Shadow.Conn.Both.Started.{writer_started}
use miniproxygo.Shadow.Conn.Both.Sent.{record_sent-Both}
use miniproxygo.Server.Relay.Lossless.{Copied, Copies}
use miniproxygo.Server.Relay.Encrypted.{
  settle_round, seal_round, seal_with, seal_through, read_from_round,
}

module _ {S Q R F : Type 0} (net : Reader S) (put : Writer S) (rand : Reader Q) (ciph : Cipher)
    (x : Floats R) (f : Filter R F) (env : Env) (Live : S → List ℕ → List ℕ → Type 0)
    (DS : Duplex net put Live) (a : Aead) (laws : IsAead a) (a' : Aead) (laws' : IsAead a')
    (salt : List ℕ) where
  module _ {T : Type 0} (source : Reader T) (pt : Writer T) (LiveT : T → List ℕ → List ℕ → Type 0)
      (DT : Duplex source pt LiveT) where
    seal_round-Copied :
        (bs out bt out' : List ℕ) (t : T) (c : StreamConn S Q F) (w : Sealer)
        → LiveT t bs out
        → c.w ≡ some (a', w)
        → Both net put rand ciph x f env Live a a' salt c bt out'
        → Copied source.budget
            (conn_budget net)
            LiveT
            (Both net put rand ciph x f env Live a a' salt)
            bs
            out
            bt
            out'
            t
            c
            (seal_round net put rand ciph x f env source a' w t c)
    unfolding seal_round
    seal_round-Copied bs out bt out' t c w live set b =
        let z = source.read payload_size_mask t in
        let st = DT.delivers out payload_size_mask t bs (omega arith) live in
        elim (Bool-cases (length z.got == 0)) [
          | inl nothing ↦
              let zero_size : length z.got ≡ 0 = (==_iff _ _).0 nothing in
              let same : LiveT z.next bs out =
                subst (λ k. LiveT z.next (drop k bs) out) zero_size st.holds in
              elim st.verdict [
                | inl (fine, less) ↦
                    rw (nothing, fine)
                      (record {
                        moved = [];
                        left = bs;
                        in_order = refl;
                        source = same;
                        sink =
                            subst (Both net put rand ciph x f env Live a a' salt c bt)
                              (sym (append-nil out')) b;
                        unspent = refl;
                        verdict = inl (refl, less);
                      })
                | inr (eof, empty) ↦
                    rw (nothing, eof)
                      (record {
                        moved = [];
                        left = bs;
                        in_order = refl;
                        source = same;
                        sink =
                            subst (Both net put rand ciph x f env Live a a' salt c bt)
                              (sym (append-nil out')) b;
                        unspent = refl;
                        verdict = inr (refl, empty);
                      })
              ]
          | inr something ↦ elim st.verdict [
            | inr (eof, empty) ↦ absurd (
                omega (
                  arith,
                  ap length (prefix_nil z.got bs st.in_order empty),
                  nonzero (length z.got) something,
                ))
            | inl (fine, less) ↦
                let sent =
                  record_sent-Both net put rand ciph x f env Live DS a laws a' laws' salt c w z.got
                    bt out' set (nonzero (length z.got) something, st.fits) b in
                rw (something, fine, sent.0)
                  (record {
                    moved = z.got;
                    left = drop (length z.got) bs;
                    in_order = st.in_order;
                    source = st.holds;
                    sink = sent.1;
                    unspent = sent.2;
                    verdict = inl (refl, less);
                  })
          ]
        ]
      where
        nonzero : (k : ℕ) → (k == 0) ≡ false → 0 < k
        nonzero k e = ground arith

    -- `ReadFrom` of an encrypted connection, from a connection that fails no call.
    pub read_from_round-Copies :
        Copies
          (read_from_round net put rand ciph x f env source)
          source.budget
          (conn_budget net)
          LiveT
          (Both net put rand ciph x f env Live a a' salt)
    unfolding read_from_round
    read_from_round-Copies bs out bt out' t c live b =
        let (d, w, went, set, both, same) =
          writer_started net put rand ciph x f env Live DS a laws a' laws' salt c bt out' b in
        let copied = seal_round-Copied bs out bt out' t d w live set both in
        let ran : read_from_round net put rand ciph x f env source t c
            ≡ seal_round net put rand ciph x f env source a' w t d =
          ap (λ m. settle_round t c (m >>= seal_through net put rand ciph x f env source t)) went
          ∙ ap (λ k. settle_round t c (seal_with net put rand ciph x f env source t d k)) set in
        subst
          (Copied source.budget (conn_budget net) LiveT
            (Both net put rand ciph x f env Live a a' salt) bs out bt out' t c)
          (sym ran)
          (record {
            moved = copied.moved;
            left = copied.left;
            in_order = copied.in_order;
            source = copied.source;
            sink = copied.sink;
            unspent = copied.unspent ∙ same;
            verdict = copied.verdict;
          })
