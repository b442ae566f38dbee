-- ===== src/Shadow/Conn/Both/Contract.antt =====
-- Both directions of a `streamConn` of m_shadow/stream.go over a network connection.
use miniproxygo.Common.{ℕ, ◌≡◌, sym, ap, subst, drop, inl, none, List, ◌++◌, length}
use miniproxygo.Io.{Read, Reader, Writer, Step}
use miniproxygo.Io.Network.{Duplex}
use miniproxygo.Internal.Outcome.{Outcome}
use miniproxygo.Internal.Filter.{Filter}
use miniproxygo.Internal.SaltFilter.{Floats, Env}
use miniproxygo.Shadow.Aead.{Aead, IsAead}
use miniproxygo.Shadow.Cipher.{Cipher}
use miniproxygo.Shadow.Conn.{StreamConn, conn_budget, write_conn}
use miniproxygo.Shadow.Conn.Reading.{Handed, Attached, read_conn-Handed}
use miniproxygo.Shadow.Conn.Source.{conn_reader, settle}
use miniproxygo.Shadow.Conn.Both.{Both, conn_writer, settle_write}
use miniproxygo.Shadow.Conn.Both.Writes.{either-Wrote}
use miniproxygo.Shadow.Conn.Both.After.{After, Writing-read, Wrote-After}

module _ {S Q R F : Type 0} (net : Reader S) (put : Writer S) (rand : Reader Q) (ciph : Cipher)
    (x : Floats R) (f : Filter R F) (env : Env) (Live : S → List ℕ → List ℕ → Type 0)
    (DS : Duplex net put Live) (a : Aead) (laws : IsAead a) (a' : Aead) (laws' : IsAead a')
    (salt : List ℕ) where
  Both-read :
      (c : StreamConn S Q F) (n : ℕ) (bs out : List ℕ)
      (b : Both net put rand ciph x f env Live a a' salt c bs out)
      (y : Outcome (Read (StreamConn S Q F)))
      → (h : Handed net put rand ciph x f env (λ s w. Live s w b.raw) a c n bs y) → (rest : List ℕ)
      → Attached net put rand ciph x f env (λ s w. Live s w b.raw) a h.result.next rest
      → Both net put rand ciph x f env Live a a' salt h.result.next rest out
  Both-read c n bs out b y h rest left = record {
    raw = b.raw;
    reading = inl left;
    writing =
        Writing-read net put rand ciph x f env Live DS a laws a' laws' salt c h.result.next out
          b.raw b.begun h.same_w h.same_random h.same_salts b.writing;
    begun = inl ((a, left.0), left.1);
  }

  write_conn-After :
      (c : StreamConn S Q F) (p bs out : List ℕ)
      (b : Both net put rand ciph x f env Live a a' salt c bs out)
      → After net put rand ciph x f env Live DS a laws a' laws' salt c p bs out
          (write_conn net put rand ciph x f env p c)
  write_conn-After c p bs out b =
      Wrote-After net put rand ciph x f env Live DS a laws a' laws' salt c p bs out b
        (write_conn net put rand ciph x f env p c)
        (λ rb live.
          either-Wrote net put rand ciph x f env Live DS a' laws' salt c p out b.raw rb b.writing
            live)

  -- A connection of `streamConn` over a network connection that fails no call, where one direction
  -- has begun; what is still to be read of the network is, behind a new salt that has a cipher if
  -- nothing has been read yet, a well-sealed stream; and, if nothing has been written yet, the next
  -- random salt has a cipher and can be recorded. In both directions at once it keeps the contract
  -- of a connection for the plaintext: whatever the pieces in which the input comes, `Read` hands
  -- out the plaintext in order, and `Write` takes all that it is given, and neither fails; every
  -- call leaves the connection in such a state.
  pub conn-Duplex :
      Duplex
        (conn_reader net put rand ciph x f env)
        (conn_writer net put rand ciph x f env)
        (Both net put rand ciph x f env Live a a' salt)
  unfolding conn_reader conn_writer
  conn-Duplex = record {
    delivers = λ out n c bs pos b.
        let h =
          read_conn-Handed net put rand ciph x f env (λ s w. Live s w b.raw) (DS.delivers b.raw) a
            laws n c bs pos b.reading in
        let st : Step (conn_reader net put rand ciph x f env)
            (λ s bs'. Both net put rand ciph x f env Live a a' salt s bs' out) n c bs h.result =
          record {
            fits = h.fits;
            in_order = h.in_order;
            holds = Both-read c n bs out b _ h (drop (length h.result.got) bs) h.left;
            verdict = h.verdict;
          } in
        subst
          (Step (conn_reader net put rand ciph x f env)
            (λ s bs'. Both net put rand ciph x f env Live a a' salt s bs' out) n c bs)
          (sym (ap (settle net put rand ciph x f env c) h.returned)) st;
    sends = λ c bs out p b.
        let (y, ran, fine, all, both, same, set) = write_conn-After c p bs out b in
        subst
          (λ z. (z.err ≡ none) × Both net put rand ciph x f env Live a a' salt z.next bs (out ++ p))
          (sym (ap (settle_write net put rand ciph x f env c) ran)) (fine, both);
    counts = λ c bs out p b.
        let (y, ran, fine, all, both, same, set) = write_conn-After c p bs out b in
        subst (λ z. z.count ≡ length p) (sym (ap (settle_write net put rand ciph x f env c) ran))
          all;
    unspent = λ c bs out p b.
        let (y, ran, fine, all, both, same, set) = write_conn-After c p bs out b in
        subst (λ z. conn_budget net z.next ≡ conn_budget net c)
          (sym (ap (settle_write net put rand ciph x f env c) ran)) same;
  }
