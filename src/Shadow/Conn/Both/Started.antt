-- ===== src/Shadow/Conn/Both/Started.antt =====
-- `streamConn` of m_shadow/stream.go with its reader or its writer made, where a method has to make it.
use miniproxygo.Common.{
  ℕ, ◌≤◌, ◌≡◌, refl, sym, ap, ◌∙◌, subst, inl, inr, Option, none, some, List, [], ◌++◌, append-nil,
  arith,
}
use miniproxygo.Io.{Error, Reader, Write, Writer}
use miniproxygo.Io.Network.{Duplex}
use miniproxygo.Internal.Outcome.{Outcome, returns, ◌>>=◌, >>=-returns}
use miniproxygo.Internal.Filter.{Filter}
use miniproxygo.Internal.SaltFilter.{Floats, Env}
use miniproxygo.Shadow.Aead.{Aead, IsAead}
use miniproxygo.Shadow.Cipher.{Cipher}
use miniproxygo.Shadow.Writer.{Sealer}
use miniproxygo.Shadow.Reader.{Opener}
use miniproxygo.Shadow.Conn.{
  StreamConn, conn_budget, unless_set, init_reader, init_writer, with_reader, with_writer,
}
use miniproxygo.Shadow.Conn.Reading.{init_reader-Attached}
use miniproxygo.Shadow.Conn.Writing.{init_writer-Writing}
use miniproxygo.Shadow.Conn.Source.{Bringing}
use miniproxygo.Shadow.Conn.Both.{Both, Written}
use miniproxygo.Shadow.Conn.Both.Writes.{Wrote, Kept, Kept-Sends, begun-Written}
use miniproxygo.Shadow.Conn.Both.After.{Writing-read, Wrote-After}

module _ {S Q R F : Type 0} (net : Reader S) (put : Writer S) (rand : Reader Q) (ciph : Cipher)
    (x : Floats R) (f : Filter R F) (env : Env) (Live : S → List ℕ → List ℕ → Type 0)
    (DS : Duplex net put Live) (a : Aead) (laws : IsAead a) (a' : Aead) (laws' : IsAead a')
    (salt : List ℕ) where
  -- What making the writer comes to as a call that writes nothing more.
  abbrev as_call : Option Error × StreamConn S Q F → Outcome (Write (StreamConn S Q F))
  as_call (e, d) = returns (record { count = 0; err = e; next = d })

  made_writer : StreamConn S Q F → Outcome (Write (StreamConn S Q F))
  made_writer c = with_writer net put rand ciph x f env c >>= as_call

  made_writer-Wrote :
      (c : StreamConn S Q F) (bs out : List ℕ)
      (b : Both net put rand ciph x f env Live a a' salt c bs out) (rb : List ℕ)
      → Live c.conn rb b.raw
      → Wrote net put rand ciph x f env Live DS a' laws' salt c [] out rb (made_writer c)
  unfolding made_writer with_writer
  made_writer-Wrote c bs out b rb live = elim b.writing [
    | inr w ↦ record {
      result = record { count = 0; err = none; next = c };
      returned =
          ap
            (λ m.
              unless_set net put rand ciph x f env m c (init_writer net put rand ciph x f env c)
              >>= as_call)
            w.set;
      no_error = refl;
      counted = refl;
      raw = b.raw;
      live = live;
      written = subst (λ o. Written a' salt c o b.raw) (sym (append-nil out)) w;
      same_r = refl;
      same_salts = inr refl;
      unspent = refl;
    }
    | inl (l, no_out, no_raw) ↦
        let sink = Kept net put rand ciph x f env Live DS a' laws' salt rb (net.budget c.conn) in
        let O = Kept-Sends net put rand ciph x f env Live DS a' laws' salt rb (net.budget c.conn) in
        let (d, made, has, sent, same_r, ss) =
          init_writer-Writing net put rand ciph x f env sink O a' laws' c salt [] l
            (subst (Live c.conn rb) no_raw live, refl) in
        record {
          result = record { count = 0; err = none; next = d };
          returned =
              ap
                (λ m.
                  unless_set net put rand ciph x f env m c (init_writer net put rand ciph x f env c)
                  >>= as_call)
                l.nothing_written
              ∙ ap (λ m. m >>= as_call) made;
          no_error = refl;
          counted = refl;
          raw = salt;
          live = sent.0;
          written =
              subst (λ o. Written a' salt d (o ++ []) salt) (sym no_out)
                (begun-Written net put rand ciph x f env Live DS a' laws' salt d has);
          same_r = same_r;
          same_salts = inl l.nothing_written;
          unspent = sent.1;
        }
  ]

  called :
      (z : Option Error × StreamConn S Q F) (y : Write (StreamConn S Q F))
      → as_call z ≡ returns y
      → y.err ≡ none
      → z ≡ (none, y.next)
  called (none, d) y e fine = let k : d ≡ y.next = cc (e) in ap (λ n. (none, n)) k
  called (some w, d) y e fine = cc (e, fine)

  pub writer_started :
      (c : StreamConn S Q F) (bs out : List ℕ)
      → Both net put rand ciph x f env Live a a' salt c bs out
      → (d : StreamConn S Q F) × (w : Sealer) × (with_writer net put rand ciph x f env c
          ≡ returns (none, d))
        × (d.w ≡ some (a', w))
        × Both net put rand ciph x f env Live a a' salt d bs out
        × (conn_budget net d ≡ conn_budget net c)
  unfolding made_writer
  writer_started c bs out b =
      let (y, ran, fine, all, both, same, (w, set)) =
        Wrote-After net put rand ciph x f env Live DS a laws a' laws' salt c [] bs out b
          (made_writer c) (made_writer-Wrote c bs out b) in
      let (z, went, is) = >>=-returns (with_writer net put rand ciph x f env c) as_call y ran in
      (
        y.next,
        w,
        went ∙ ap returns (called z y is fine),
        set,
        subst (Both net put rand ciph x f env Live a a' salt y.next bs) (append-nil out) both,
        same,
      )

  started_by :
      (c : StreamConn S Q F) (bs out : List ℕ)
      (b : Both net put rand ciph x f env Live a a' salt c bs out)
      → Bringing net put rand ciph x f env (λ s w. Live s w b.raw) a c bs
      → (d : StreamConn S Q F) × (o : Opener S) × (with_reader net put rand ciph x f env c
          ≡ returns (none, d))
        × (d.r ≡ some (a, o))
        × Both net put rand ciph x f env Live a a' salt d bs out
        × (conn_budget net d ≤ conn_budget net c)
  unfolding with_reader
  started_by c bs out b (inl (o, has, carries)) = (
    c,
    o,
    ap (λ m. unless_set net put rand ciph x f env m c (init_reader net put rand ciph x f env c))
        has,
    has,
    b,
    omega arith,
  )
  started_by c bs out b (inr h) =
      let (d, made, (o, has, held), less, sw, sr, ss) =
        init_reader-Attached net put rand ciph x f env (λ s w. Live s w b.raw) (DS.delivers b.raw) a
          laws c bs h in
      (
        d,
        o,
        ap (λ m. unless_set net put rand ciph x f env m c (init_reader net put rand ciph x f env c))
              h.nothing_read
            ∙ made,
        has,
        record {
          raw = b.raw;
          reading = inl (o, has, held);
          writing =
              Writing-read net put rand ciph x f env Live DS a laws a' laws' salt c d out b.raw
                b.begun sw sr (inl h.nothing_read) b.writing;
          begun = inl ((a, o), has);
        },
        less,
      )

  pub reader_started :
      (c : StreamConn S Q F) (bs out : List ℕ)
      → Both net put rand ciph x f env Live a a' salt c bs out
      → (d : StreamConn S Q F) × (o : Opener S) × (with_reader net put rand ciph x f env c
          ≡ returns (none, d))
        × (d.r ≡ some (a, o))
        × Both net put rand ciph x f env Live a a' salt d bs out
        × (conn_budget net d ≤ conn_budget net c)
  reader_started c bs out b = started_by c bs out b b.reading
