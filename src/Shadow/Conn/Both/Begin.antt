-- ===== src/Shadow/Conn/Both/Begin.antt =====
-- `streamConn` of m_shadow/stream.go in both directions from the first call on: a reader that has not
-- read its salt and is going to send one, and a writer that has sent its first bytes.
use miniproxygo.Common.{
  ℕ, ◌<◌, ◌≡◌, refl, sym, ap, ◌∙◌, subst, false, ◌⊎◌, inl, inr, none, List, [], ◌++◌, length, drop,
  length-append, arith,
}
use miniproxygo.Io.{ok, Reader, Write, Writer, Step, Delivers, read_full}
use miniproxygo.Io.Network.{Duplex}
use miniproxygo.Internal.Outcome.{returns}
use miniproxygo.Internal.Filter.{Filter}
use miniproxygo.Internal.SaltFilter.{Floats, Env, Salts, add_salt, check_salt}
use miniproxygo.Shadow.Aead.{Aead, IsAead}
use miniproxygo.Shadow.Nonce.{zeros}
use miniproxygo.Shadow.Cipher.{Cipher}
use miniproxygo.Shadow.RoundTrip.{Stream}
use miniproxygo.Shadow.Conn.{StreamConn, read_conn, write_conn}
use miniproxygo.Shadow.Conn.Reading.{Handed, Arriving, read_conn-Handed, arriving_salts}
use miniproxygo.Shadow.Conn.Writing.{Leaving}
use miniproxygo.Shadow.Conn.Source.{conn_reader, settle}
use miniproxygo.Shadow.Conn.Both.{Both}
use miniproxygo.Shadow.Conn.Both.Writes.{first-Wrote}
use miniproxygo.Shadow.Conn.Both.Contract.{conn-Duplex}

module _ {S Q R F : Type 0} (net : Reader S) (put : Writer S) (rand : Reader Q) (ciph : Cipher)
    (x : Floats R) (f : Filter R F) (env : Env) (Live : S → List ℕ → List ℕ → Type 0)
    (DS : Duplex net put Live) (a : Aead) (laws : IsAead a) (a' : Aead) (laws' : IsAead a')
    (salt : List ℕ) where
  -- Nothing has been read or written. The input is a new salt and a stream of `bs`, and `salt` is ready
  -- for the first call of `Write`, once the other salt has been checked.
  pub record Starting (c : StreamConn S Q F) (bs : List ℕ) : Type 0 where
    pub arriving : Arriving net put rand ciph x f env (λ s w. Live s w []) a c bs
    pub salts : Salts F
    pub nothing_written : c.w ≡ none
    pub drawn : (read_full rand ciph.salt_size c.random).got ≡ salt
    pub no_error : (read_full rand ciph.salt_size c.random).err ≡ none
    pub keyed : ciph.encrypter salt ≡ ok a'
    pub recorded : add_salt x f env salt arriving.salts ≡ returns salts

  Starting-read :
      (c : StreamConn S Q F) (n : ℕ) (bs : List ℕ) (st : Starting c bs)
      (h : Handed net put rand ciph x f env
        (λ s w. Live s w [])
        a
        c
        n
        bs
        (read_conn net put rand ciph x f env n c))
      → Both net put rand ciph x f env Live a a' salt h.result.next
          (drop (length h.result.got) bs)
          []
  Starting-read c n bs st h = record {
    raw = [];
    reading = inl h.left;
    writing = inl (
      record {
        salts = st.salts;
        nothing_written = h.same_w ∙ st.nothing_written;
        drawn = rw h.same_random st.drawn;
        no_error = rw h.same_random st.no_error;
        keyed = st.keyed;
        recorded =
            rw
              (arriving_salts net put rand ciph x f env (λ s w. Live s w []) (DS.delivers []) a laws
                n c bs st.arriving h.result h.returned)
              st.recorded;
      },
      refl,
      refl,
    );
    begun = inl ((a, h.left.0), h.left.1);
  }

  -- Either nothing has been read of `whole`, or both directions can be used.
  abbrev pub Expecting : List ℕ → StreamConn S Q F → List ℕ → Type 0
  Expecting whole c bs =
      Both net put rand ciph x f env Live a a' salt c bs [] ⊎ Starting c bs × (bs ≡ whole)

  pub Expecting-Delivers :
      (whole : List ℕ) → Delivers (conn_reader net put rand ciph x f env) (Expecting whole)
  unfolding conn_reader
  Expecting-Delivers whole n c bs pos (inl b) =
      let st =
        (conn-Duplex net put rand ciph x f env Live DS a laws a' laws' salt).delivers [] n c bs pos
          b in
      record { fits = st.fits; in_order = st.in_order; holds = inl st.holds; verdict = st.verdict }
  Expecting-Delivers whole n c bs pos (inr (s, all)) =
      let h =
        read_conn-Handed net put rand ciph x f env (λ s w. Live s w []) (DS.delivers []) a laws n c
          bs pos (inr s.arriving) in
      let st : Step (conn_reader net put rand ciph x f env) (Expecting whole) n c bs h.result =
        record {
          fits = h.fits;
          in_order = h.in_order;
          holds = inl (Starting-read c n bs s h);
          verdict = h.verdict;
        } in
      subst (Step (conn_reader net put rand ciph x f env) (Expecting whole) n c bs)
        (sym (ap (settle net put rand ciph x f env c) h.returned)) st

  -- Once some of it has been read, both directions can be used.
  pub Expecting-Both :
      (head rest : List ℕ) (c : StreamConn S Q F)
      → 0 < length head
      → Expecting (head ++ rest) c rest
      → Both net put rand ciph x f env Live a a' salt c rest []
  Expecting-Both head rest c some_bytes (inl b) = b
  Expecting-Both head rest c some_bytes (inr (s, all)) =
      absurd (omega (arith, ap length all, length-append head rest))

  -- Nothing has been read or written: `salt` is ready, and behind it the input is another salt, new
  -- to the filter that has recorded `salt`, and a stream of `bs`.
  pub record Leading (c : StreamConn S Q F) (bs : List ℕ) : Type 0 where
    pub leaving : Leaving net put rand ciph x f env a' c salt
    pub their_salt : List ℕ
    pub wire : List ℕ
    pub salts : Salts F
    pub nothing_read : c.r ≡ none
    pub salt_fits : length their_salt ≡ ciph.salt_size
    pub not_empty : 0 < ciph.salt_size
    pub keyed : ciph.decrypter their_salt ≡ ok a
    pub new_salt : check_salt x f env their_salt leaving.salts ≡ returns (false, salts)
    pub input : Live c.conn (their_salt ++ wire) []
    pub carried : Stream a (zeros a.nonce_size) bs wire

  pub Leading-Both :
      (c : StreamConn S Q F) (p bs : List ℕ)
      → Leading c bs
      → (y : Write (StreamConn S Q F)) × (write_conn net put rand ciph x f env p c ≡ returns y)
        × (y.err ≡ none)
        × Both net put rand ciph x f env Live a a' salt y.next bs p
  Leading-Both c p bs h =
      let (w, ss) =
        first-Wrote net put rand ciph x f env Live DS a' laws' salt c p [] []
          (h.their_salt ++ h.wire) (h.leaving, refl, refl) h.input in
      (
        w.result,
        w.returned,
        w.no_error,
        record {
          raw = w.raw;
          reading = inr (record {
            salt = h.their_salt;
            wire = h.wire;
            salts = h.salts;
            nothing_read = w.same_r ∙ h.nothing_read;
            salt_fits = h.salt_fits;
            not_empty = h.not_empty;
            keyed = h.keyed;
            new_salt = rw ss h.new_salt;
            input = w.live;
            carried = h.carried;
          });
          writing = inr w.written;
          begun = inr ((a', w.written.writer), w.written.set);
        },
      )
