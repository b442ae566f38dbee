-- ===== src/Shadow/Conn/Reading.antt =====
-- What `Read` of `streamConn` returns, on the first call and on later ones.
use miniproxygo.Common.{
  ℕ, ◌-◌, ◌≤◌, ◌<◌, ◌≤◌, ◌≡◌, refl, sym, ap, ◌∙◌, subst, ◌⊎◌, inl, inr, false, none, some, List, [],
  ◌++◌, length, drop, take-append, drop-append, length-append, arith,
}
use miniproxygo.Io.{Error, ok, Read, Reader, Writer, Delivers, read_full}
use miniproxygo.Io.Full.{read_full_ok, read_full_spends}
use miniproxygo.Internal.Outcome.{Outcome, returns, panics, deadlocks, ◌>>=◌}
use miniproxygo.Internal.Filter.{Filter}
use miniproxygo.Internal.SaltFilter.{Floats, Env, Salts, check_salt}
use miniproxygo.Shadow.Aead.{Aead, IsAead}
use miniproxygo.Shadow.Nonce.{zeros}
use miniproxygo.Shadow.Cipher.{Cipher}
use miniproxygo.Shadow.Reader.{Opener, new_reader, opener}
use miniproxygo.Shadow.Reader.Stream.{Carries, opener-Delivers}
use miniproxygo.Shadow.RoundTrip.{Stream, new_reader-Carries}
use miniproxygo.Shadow.Conn.{
  StreamConn, kept, conn_budget, unless_set, init_reader, accept_salt, with_reader, after_reader,
  read_through, read_conn,
}

module _ {S Q R F : Type 0} (net : Reader S) (put : Writer S) (rand : Reader Q) (ciph : Cipher)
    (x : Floats R) (f : Filter R F) (env : Env) (Holds : S → List ℕ → Type 0) where
  -- The connection has read its salt, and has still to deliver `bs`.
  abbrev pub Attached : Aead → StreamConn S Q F → List ℕ → Type 0
  Attached a c bs =
      (o : Opener S) × (c.r ≡ some (a, o)) × Carries a Holds (record o { source = c.conn }) bs

  -- Nothing has been read: the input is a salt that the filter does not know and a stream of `bs`.
  pub record Arriving (a : Aead) (c : StreamConn S Q F) (bs : List ℕ) : Type 0 where
    pub salt : List ℕ
    pub wire : List ℕ
    pub salts : Salts F
    pub nothing_read : c.r ≡ none
    pub salt_fits : length salt ≡ ciph.salt_size
    pub not_empty : 0 < ciph.salt_size
    pub keyed : ciph.decrypter salt ≡ ok a
    pub new_salt : check_salt x f env salt c.salts ≡ returns (false, salts)
    pub input : Holds c.conn (salt ++ wire)
    pub carried : Stream a (zeros a.nonce_size) bs wire

  -- A call of `Read` that has returned a prefix of `bs`; the end is reported only when nothing is left.
  pub record Handed (a : Aead) (c : StreamConn S Q F) (n : ℕ) (bs : List ℕ)
      (y : Outcome (Read (StreamConn S Q F))) : Type 0 where
    pub result : Read (StreamConn S Q F)
    pub returned : y ≡ returns result
    pub fits : length result.got ≤ n
    pub in_order : result.got ++ drop (length result.got) bs ≡ bs
    pub left : Attached a result.next (drop (length result.got) bs)
    pub verdict :
        (result.err ≡ none) × (conn_budget net result.next < conn_budget net c)
        ⊎ (result.err ≡ some Error.eof) × (bs ≡ [])
    pub same_w : result.next.w ≡ c.w
    pub same_random : result.next.random ≡ c.random
    pub same_salts : (c.r ≡ none) ⊎ (result.next.salts ≡ c.salts)

  module _ (D : Delivers net Holds) (a : Aead) (laws : IsAead a) where
    read_through-Handed :
        (n : ℕ) (c : StreamConn S Q F) (o : Opener S) (bs : List ℕ)
        → 0 < n
        → c.r ≡ some (a, o)
        → Carries a Holds (record o { source = c.conn }) bs
        → Handed a c n bs (read_through net put rand ciph x f env n (some (a, o)) c)
    unfolding read_through opener
    read_through-Handed n c o bs pos has held =
        let st = opener-Delivers a laws net Holds D n (record o { source = c.conn }) bs pos held in
        let same : kept c.r ≡ o.left_hi - o.left_lo = ap kept has in
        record {
          result = _;
          returned = refl;
          fits = st.fits;
          in_order = st.in_order;
          left = (_, refl, st.holds);
          verdict = elim st.verdict [ inl v ↦ inl (v.0, omega (arith, v.1, same)) | inr v ↦ inr v ];
          same_w = refl;
          same_random = refl;
          same_salts = inr refl;
        }

    reading :
        (n : ℕ) (c : StreamConn S Q F) (o : Opener S)
        → c.r ≡ some (a, o)
        → read_conn net put rand ciph x f env n c
          ≡ read_through net put rand ciph x f env n (some (a, o)) c
    unfolding read_conn with_reader after_reader
    reading n c o has =
        ap
          (λ m.
            unless_set net put rand ciph x f env m c (init_reader net put rand ciph x f env c)
            >>= after_reader net put rand ciph x f env n)
          has
        ∙ ap (λ m. read_through net put rand ciph x f env n m c) has

    weaken :
        (c c' : StreamConn S Q F) (n : ℕ) (bs : List ℕ) (y : Outcome (Read (StreamConn S Q F)))
        → conn_budget net c' ≤ conn_budget net c
        → c'.w ≡ c.w
        → c'.random ≡ c.random
        → c.r ≡ none
        → Handed a c' n bs y
        → Handed a c n bs y
    weaken c c' n bs y le sw sr unread h = record {
      result = h.result;
      returned = h.returned;
      fits = h.fits;
      in_order = h.in_order;
      left = h.left;
      verdict = elim h.verdict [ inl v ↦ inl (v.0, omega (arith, v.1, le)) | inr v ↦ inr v ];
      same_w = h.same_w ∙ sw;
      same_random = h.same_random ∙ sr;
      same_salts = inl unread;
    }

    Attached-Handed :
        (n : ℕ) (c : StreamConn S Q F) (bs : List ℕ)
        → 0 < n
        → Attached a c bs
        → Handed a c n bs (read_conn net put rand ciph x f env n c)
    unfolding read_conn with_reader after_reader
    Attached-Handed n c bs pos (o, has, held) =
        subst (Handed a c n bs) (sym (reading n c o has))
          (read_through-Handed n c o bs pos has held)

    -- `initReader` on a salt that is new.
    pub init_reader-Attached :
        (c : StreamConn S Q F) (bs : List ℕ) (h : Arriving a c bs)
        → (c' : StreamConn S Q F) × (init_reader net put rand ciph x f env c ≡ returns (none, c'))
          × Attached a c' bs
          × (conn_budget net c' ≤ conn_budget net c)
          × (c'.w ≡ c.w)
          × (c'.random ≡ c.random)
          × (c'.salts ≡ h.salts)
    unfolding init_reader new_reader
    init_reader-Attached c bs h =
        let n = ciph.salt_size in
        let y = read_full net n c.conn in
        let full =
          read_full_ok net Holds D n c.conn (h.salt ++ h.wire) h.input
            (omega (arith, length-append h.salt h.wire, h.salt_fits)) in
        let got : y.got ≡ h.salt = full.0 ∙ take-append n h.salt h.wire (sym h.salt_fits) in
        let behind : Holds y.next h.wire =
          subst (Holds y.next) (drop-append n h.salt h.wire (sym h.salt_fits)) full.2 in
        let c1 = record c { conn = y.next } in
        let accept = accept_salt net put rand ciph x f env in
        (
          record c1 { salts = h.salts; r = some (a, new_reader a net y.next) },
          rw full.1 (
              ap (λ g. accept (ciph.decrypter g) g c1) got
              ∙ ap (λ k. accept k h.salt c1) h.keyed
              ∙ rw h.new_salt refl),
          (
            new_reader a net y.next,
            refl,
            new_reader-Carries a net Holds y.next bs h.wire h.carried behind,
          ),
          omega (
            arith,
            ap kept h.nothing_read,
            read_full_spends net Holds D n c.conn (h.salt ++ h.wire) h.input
                (omega (arith, length-append h.salt h.wire, h.salt_fits)) h.not_empty,
          ),
          refl,
          refl,
          refl,
        )

    first_read :
        (n : ℕ) (c c' : StreamConn S Q F) (o : Opener S) (bs : List ℕ) (h : Arriving a c bs)
        → init_reader net put rand ciph x f env c ≡ returns (none, c')
        → c'.r ≡ some (a, o)
        → read_conn net put rand ciph x f env n c
          ≡ read_through net put rand ciph x f env n (some (a, o)) c'
    unfolding read_conn with_reader after_reader
    first_read n c c' o bs h made has =
        ap (λ m. m >>= after_reader net put rand ciph x f env n)
          (ap
              (λ m.
                unless_set net put rand ciph x f env m c (init_reader net put rand ciph x f env c))
              h.nothing_read
            ∙ made)
        ∙ ap (λ m. read_through net put rand ciph x f env n m c') has

    -- The salts behind a call that has returned.
    salts_of : Salts F → Outcome (Read (StreamConn S Q F)) → Salts F
    salts_of old (returns y) = y.next.salts
    salts_of old panics = old
    salts_of old deadlocks = old

    -- The first call leaves the filter as the check of the salt has left it.
    pub arriving_salts :
        (n : ℕ) (c : StreamConn S Q F) (bs : List ℕ) (h : Arriving a c bs)
        (y : Read (StreamConn S Q F))
        → read_conn net put rand ciph x f env n c ≡ returns y
        → y.next.salts ≡ h.salts
    unfolding read_through salts_of
    arriving_salts n c bs h y ran =
        let (c', made, (o, has, held), less, sw, sr, ss) = init_reader-Attached c bs h in
        ap (salts_of c.salts) (sym ran ∙ first_read n c c' o bs h made has) ∙ ss

    -- `Read` of a connection with a cipher of its own for the salt, on the first call and on every
    -- later one, whatever the buffer's size and the pieces in which the input comes: it returns.
    pub read_conn-Handed :
        (n : ℕ) (c : StreamConn S Q F) (bs : List ℕ)
        → 0 < n
        → Attached a c bs ⊎ Arriving a c bs
        → Handed a c n bs (read_conn net put rand ciph x f env n c)
    read_conn-Handed n c bs pos (inl held) = Attached-Handed n c bs pos held
    read_conn-Handed n c bs pos (inr h) =
        let (c', made, (o, has, held), less, sw, sr, ss) = init_reader-Attached c bs h in
        subst (Handed a c n bs) (sym (first_read n c c' o bs h made has)) (
          weaken c c' n bs _ less sw sr h.nothing_read (read_through-Handed n c' o bs pos has held))
