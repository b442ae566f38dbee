-- ===== src/Server/Relay/Encrypted/Out.antt =====
-- `io.Copy` of m_server/socks_server.go from a `streamConn`, by the `WriteTo` of m_shadow/stream.go.
use miniproxygo.Common.{
  ℕ, zero, suc, ◌+◌, ◌-◌, ◌≡◌, refl, sym, ap, ◌∙◌, subst, inl, inr, true, false, Bool-cases, Option,
  some, List, [], ◌++◌, length, take, drop, slice, append-nil, ltb, ltb→lt, ltb→ge, length-take,
  length-drop, ◌==◌, ==_iff, arith,
}
use miniproxygo.Io.{Reader, Writer}
use miniproxygo.Io.Network.{Duplex}
use miniproxygo.Internal.Outcome.{◌>>=◌}
use miniproxygo.Internal.Filter.{Filter}
use miniproxygo.Internal.SaltFilter.{Floats, Env}
use miniproxygo.Shadow.Aead.{Aead, IsAead}
use miniproxygo.Shadow.Frame.{payload_size_mask, concat}
use miniproxygo.Shadow.Cipher.{Cipher}
use miniproxygo.Shadow.Reader.{Opener, read_record, hand_over, opener}
use miniproxygo.Shadow.Reader.Whole.{read_record_size, hand_over_all}
use miniproxygo.Shadow.Reader.Stream.{Carries, record-Step, slice_none}
use miniproxygo.Shadow.Conn.{StreamConn, conn_budget, kept}
use miniproxygo.Shadow.Conn.Source.{Bringing}
use miniproxygo.Shadow.Conn.Both.{Both}
use miniproxygo.Shadow.Conn.Both.After.{Writing-read}
use miniproxygo.Shadow.Conn.Both.Started.{reader_started}
use miniproxygo.Server.Relay.{Round, after_read}
use miniproxygo.Server.Relay.Lossless.{Copied, Copies}
use miniproxygo.Server.Relay.Encrypted.{
  settle_round, reading_on, open_round, open_with, open_through, write_to_round,
}

module _ {S Q R F : Type 0} (net : Reader S) (put : Writer S) (rand : Reader Q) (ciph : Cipher)
    (x : Floats R) (f : Filter R F) (env : Env) (Live : S → List ℕ → List ℕ → Type 0)
    (DS : Duplex net put Live) (a : Aead) (laws : IsAead a) (a' : Aead) (laws' : IsAead a')
    (salt : List ℕ) where
  -- The connection once its reader has moved on to `o`.
  Both-on :
      (c : StreamConn S Q F) (o o' : Opener S) (bs out rest : List ℕ)
      (b : Both net put rand ciph x f env Live a a' salt c bs out)
      → c.r ≡ some (a, o)
      → Carries a (λ s w. Live s w b.raw) o' rest
      → Both net put rand ciph x f env Live a a' salt (reading_on c a o') rest out
  Both-on c o o' bs out rest b has carries = record {
    raw = b.raw;
    reading = inl (o', refl, carries);
    writing =
        Writing-read net put rand ciph x f env Live DS a laws a' laws' salt c (reading_on c a o')
          out b.raw b.begun refl refl (inr refl) b.writing;
    begun = inl ((a, o'), refl);
  }

  -- What a reader that exists carries.
  carried :
      (c : StreamConn S Q F) (o : Opener S) (bs raw : List ℕ)
      → c.r ≡ some (a, o)
      → Bringing net put rand ciph x f env (λ s w. Live s w raw) a c bs
      → Carries a (λ s w. Live s w raw) (record o { source = c.conn }) bs
  carried c o bs raw has (inr h) = cc (h.nothing_read, has)
  carried c o bs raw has (inl (o0, has0, carries)) =
      let e : ◌≡◌ {A = Option (Aead × Opener S)} (some (a, o0)) (some (a, o)) = sym has0 ∙ has in
      let k : o0 ≡ o = cc (e) in
      subst (λ z. Carries a (λ s w. Live s w raw) (record z { source = c.conn }) bs) k carries

  module _ {T : Type 0} (rt : Reader T) (sink : Writer T) (LiveT : T → List ℕ → List ℕ → Type 0)
      (DT : Duplex rt sink LiveT) where
    abbrev Turn :
        (bs out bt out' : List ℕ) (c : StreamConn S Q F) (t : T)
        → Round (StreamConn S Q F) T
        → Type 0
    Turn bs out bt out' c t =
        Copied (conn_budget net) rt.budget (Both net put rand ciph x f env Live a a' salt) LiveT bs
          out bt out' c t

    leftover_round :
        (bs out bt out' : List ℕ) (c : StreamConn S Q F) (o : Opener S) (t : T)
        (b : Both net put rand ciph x f env Live a a' salt c bs out)
        → LiveT t bt out'
        → c.r ≡ some (a, o)
        → Carries a (λ s w. Live s w b.raw) (record o { source = c.conn }) bs
        → ltb o.left_lo o.left_hi ≡ true
        → Turn bs out bt out' c t
            (open_round net put rand ciph x f env sink a (record o { source = c.conn }) c t)
    unfolding open_round
    leftover_round bs out bt out' c o t b live has k left =
        let l = slice o.left_lo o.left_hi o.buf in
        let y = sink l t in
        let sent = DT.sends t bt out' l live in
        let size : length l ≡ o.left_hi - o.left_lo = omega (
          arith,
          length-take (o.left_hi - o.left_lo) (drop o.left_lo o.buf),
          length-drop o.left_lo o.buf,
          k.left_fits,
        ) in
        let took : y.count ≡ o.left_hi - o.left_lo = DT.counts t bt out' l live ∙ size in
        let some_left = ltb→lt o.left_lo o.left_hi left in
        rw (left, sent.0)
          (record {
            moved = l;
            left = concat k.records;
            in_order = k.plain;
            source =
                Both-on c o (record o { source = c.conn; left_lo = o.left_lo + y.count }) bs out
                  (concat k.records) b has
                  (record {
                    records = k.records;
                    payloads = k.payloads;
                    plain =
                        slice_none (o.left_lo + y.count) o.left_hi o.buf (concat k.records)
                          (omega (arith, took));
                    ciphertext = k.ciphertext;
                    nonce_fits = k.nonce_fits;
                    buf_fits = k.buf_fits;
                    left_fits = k.left_fits;
                  });
            sink = sent.1;
            unspent = DT.unspent t bt out' l live;
            verdict = inl (refl, omega (arith, some_left, took, ap kept has));
          })

    record_round :
        (bs out bt out' : List ℕ) (c : StreamConn S Q F) (o : Opener S) (t : T)
        (b : Both net put rand ciph x f env Live a a' salt c bs out)
        → LiveT t bt out'
        → c.r ≡ some (a, o)
        → Carries a (λ s w. Live s w b.raw) (record o { source = c.conn }) bs
        → ltb o.left_lo o.left_hi ≡ false
        → Turn bs out bt out' c t
            (open_round net put rand ciph x f env sink a (record o { source = c.conn }) c t)
    unfolding open_round opener
    record_round bs out bt out' c o t b live has k used =
        let oo : Opener S = record o { source = c.conn } in
        let z = read_record a net oo in
        let p = take z.size z.next.buf in
        let y = sink p t in
        let none_left = ltb→ge o.left_lo o.left_hi used in
        let st =
          record-Step a laws net (λ s w. Live s w b.raw) (DS.delivers b.raw) payload_size_mask oo bs
            k.records none_left k
            (sym (slice_none o.left_lo o.left_hi o.buf (concat k.records) none_left) ∙ k.plain)
            k.payloads k.ciphertext in
        let (got, next) = hand_over_all a net payload_size_mask z (read_record_size a net oo) in
        let in_order : p ++ drop (length p) bs ≡ bs =
          subst (λ g. g ++ drop (length g) bs ≡ bs) got st.in_order in
        let carries : Carries a (λ s w. Live s w b.raw) z.next (drop (length p) bs) =
          subst (λ n. Carries a (λ s w. Live s w b.raw) n (drop (length p) bs)) next
            (subst
              (λ g.
                Carries a (λ s w. Live s w b.raw) (hand_over a net payload_size_mask z).next
                  (drop (length g) bs))
              got st.holds) in
        let turned : (t' : T)
            → LiveT t' bt (out' ++ p)
            → rt.budget t' ≡ rt.budget t
            → Turn bs out bt out' c t
                (record { side = after_read z.err; source = reading_on c a z.next; sink = t' }) =
          λ t' written unspent. record {
            moved = p;
            left = drop (length p) bs;
            in_order = in_order;
            source = Both-on c o z.next bs out (drop (length p) bs) b has carries;
            sink = written;
            unspent = unspent;
            verdict = elim st.verdict [
              | inl (fine, less) ↦ inl (
                ap after_read fine,
                omega (
                  arith,
                  less,
                  ap (λ n. net.budget n.source) next,
                  ap (λ n. n.left_hi - n.left_lo) next,
                  ap kept has,
                ),
              )
              | inr (eof, empty) ↦
                  inr (ap after_read eof, ap (drop (length p)) empty ∙ drop_none (length p))
            ];
          } in
        let sent = DT.sends t bt out' p live in
        elim (Bool-cases (z.size == 0)) [
          | inl nothing ↦
              let no_bytes : p ≡ [] = ap (λ n. take n z.next.buf) ((==_iff _ _).0 nothing) in
              rw (used, nothing)
                (turned t
                  (subst (LiveT t bt) (sym (ap (λ g. out' ++ g) no_bytes ∙ append-nil out')) live)
                  refl)
          | inr something ↦
              rw (used, something, sent.0) (turned y.next sent.1 (DT.unspent t bt out' p live))
        ]
      where
        drop_none : (n : ℕ) → ◌≡◌ {A = List ℕ} (drop n []) []
        drop_none zero = refl
        drop_none (suc n) = refl

    -- `WriteTo` of an encrypted connection, to a connection that fails no call.
    pub write_to_round-Copies :
        Copies
          (write_to_round net put rand ciph x f env sink)
          (conn_budget net)
          rt.budget
          (Both net put rand ciph x f env Live a a' salt)
          LiveT
    unfolding write_to_round
    write_to_round-Copies bs out bt out' c t both0 live =
        let (d, o, went, has, b, less) =
          reader_started net put rand ciph x f env Live DS a laws a' laws' salt c bs out both0 in
        let k = carried d o bs b.raw has b.reading in
        let copied : Turn bs out bt out' d t
            (open_round net put rand ciph x f env sink a (record o { source = d.conn }) d t) =
          elim (Bool-cases (ltb o.left_lo o.left_hi)) [
            | inl left ↦ leftover_round bs out bt out' d o t b live has k left
            | inr used ↦ record_round bs out bt out' d o t b live has k used
          ] in
        let ran : write_to_round net put rand ciph x f env sink c t
            ≡ open_round net put rand ciph x f env sink a (record o { source = d.conn }) d t =
          ap (λ m. settle_round c t (m >>= open_through net put rand ciph x f env sink t)) went
          ∙ ap (λ q. settle_round c t (open_with net put rand ciph x f env sink t d q)) has in
        subst (Turn bs out bt out' c t) (sym ran) (record {
          moved = copied.moved;
          left = copied.left;
          in_order = copied.in_order;
          source = copied.source;
          sink = copied.sink;
          unspent = copied.unspent;
          verdict = elim copied.verdict [
            | inl (on, fewer) ↦ inl (on, omega (arith, fewer, less))
            | inr done ↦ inr done
          ];
        })
