-- ===== src/Shadow/Conn/Source.antt =====
-- `streamConn` of m_shadow/stream.go as an `io.Reader`, for the routines that read from one.
use miniproxygo.Common.{ℕ, sym, ap, subst, ◌⊎◌, inl, some, List, []}
use miniproxygo.Io.{Error, Read, Reader, Writer, Step, Delivers}
use miniproxygo.Internal.Outcome.{Outcome, returns, panics, deadlocks}
use miniproxygo.Internal.Filter.{Filter}
use miniproxygo.Internal.SaltFilter.{Floats, Env}
use miniproxygo.Shadow.Aead.{Aead, IsAead}
use miniproxygo.Shadow.Cipher.{Cipher}
use miniproxygo.Shadow.Conn.{StreamConn, read_conn, conn_budget}
use miniproxygo.Shadow.Conn.Reading.{Attached, Arriving, read_conn-Handed}

module _ {S Q R F : Type 0} (net : Reader S) (put : Writer S) (rand : Reader Q) (ciph : Cipher)
    (x : Floats R) (f : Filter R F) (env : Env) where
  -- A call that does not return ends the goroutine, and nothing more is read.
  abbrev pub settle : StreamConn S Q F → Outcome (Read (StreamConn S Q F)) → Read (StreamConn S Q F)
  settle c (returns y) = y
  settle c panics = record { got = []; err = some Error.crashed; next = c }
  settle c deadlocks = record { got = []; err = some Error.crashed; next = c }

  unfoldable pub conn_reader : Reader (StreamConn S Q F)
  conn_reader = record {
    read = λ n c. settle c (read_conn net put rand ciph x f env n c);
    budget = conn_budget net;
  }

  -- A connection on which the plaintext `bs` is still to come, the salt read or not.
  abbrev pub Bringing : (S → List ℕ → Type 0) → Aead → StreamConn S Q F → List ℕ → Type 0
  Bringing Holds a c bs =
      Attached net put rand ciph x f env Holds a c bs
      ⊎ Arriving net put rand ciph x f env Holds a c bs

  -- It keeps the contract of a reader, from the first call on.
  pub conn_reader-Delivers :
      (Holds : S → List ℕ → Type 0) (D : Delivers net Holds) (a : Aead) (laws : IsAead a)
      → Delivers conn_reader (Bringing Holds a)
  unfolding conn_reader
  conn_reader-Delivers Holds D a laws n c bs pos held =
      let h = read_conn-Handed net put rand ciph x f env Holds D a laws n c bs pos held in
      let st : Step (conn_reader) (Bringing Holds a) n c bs h.result = record {
        fits = h.fits;
        in_order = h.in_order;
        holds = inl h.left;
        verdict = h.verdict;
      } in
      subst (Step (conn_reader) (Bringing Holds a) n c bs) (sym (ap (settle c) h.returned)) st
