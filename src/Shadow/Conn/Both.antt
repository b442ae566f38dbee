-- ===== src/Shadow/Conn/Both.antt =====
-- `streamConn` of m_shadow/stream.go in both directions at once: as a reader and as a writer, and the
-- state in which it has some plaintext still to be read and has written some.
pub mod Writes
pub mod After
pub mod Contract
pub mod Begin
pub mod Started
pub mod Sent
use miniproxygo.Common.{
  ℕ, ◌+◌, ◌*◌, ◌^◌, ◌≡◌, refl, sym, ap, ap₂, ◌∙◌, subst, drop, false, ◌⊎◌, inl, inr, Option, none,
  some, List, [], ◌∷◌, ◌++◌, length, append_assoc, append-nil, All, arith,
}
use miniproxygo.Io.{Error, Read, Reader, Write, Writer, Step, Delivers, Sends, read_full}
use miniproxygo.Io.Network.{Duplex}
use miniproxygo.Internal.Outcome.{Outcome, returns, panics, deadlocks}
use miniproxygo.Internal.Filter.{Filter}
use miniproxygo.Internal.SaltFilter.{Floats, Env, Salts, check_salt}
use miniproxygo.Shadow.Aead.{Aead, IsAead}
use miniproxygo.Shadow.Nonce.{increment, zeros}
use miniproxygo.Shadow.Frame.{concat, IsPayload, frames, nonce_after}
use miniproxygo.Shadow.Cipher.{Cipher}
use miniproxygo.Shadow.Writer.{Sealer, new_writer, write}
use miniproxygo.Shadow.Writer.Seal.{IsReady}
use miniproxygo.Shadow.Writer.Frames.{new_writer-IsReady, write-Sealed}
use miniproxygo.Shadow.RoundTrip.{concat-append, All-append, frames-append}
use miniproxygo.Shadow.Reader.{Opener}
use miniproxygo.Shadow.Reader.Stream.{Carries}
use miniproxygo.Shadow.Conn.{
  StreamConn, kept, conn_budget, read_conn, write_conn, write_through, init_writer,
}
use miniproxygo.Shadow.Conn.Reading.{Handed, Attached, Arriving, read_conn-Handed}
use miniproxygo.Shadow.Conn.Writing.{Leaving, init_writer-Writing, write_conn-set, write_conn_first}
use miniproxygo.Shadow.Conn.Source.{conn_reader, settle, Bringing}

-- The salt has gone out and behind it records over `out`; `raw` is all that has gone out.
pub record Written {S Q F : Type 0} (a' : Aead) (salt : List ℕ) (c : StreamConn S Q F)
    (out raw : List ℕ) : Type 0 where
  pub writer : Sealer
  pub set : c.w ≡ some (a', writer)
  pub ready : IsReady a' writer
  pub records : List (List ℕ)
  pub payloads : All IsPayload records
  pub same_bytes : concat records ≡ out
  pub due : writer.nonce ≡ nonce_after (zeros a'.nonce_size) records
  pub same_raw : salt ++ frames a' (zeros a'.nonce_size) records ≡ raw

module _ {S Q R F : Type 0} (net : Reader S) (put : Writer S) (rand : Reader Q) (ciph : Cipher)
    (x : Floats R) (f : Filter R F) (env : Env) where
  -- A call that does not return ends the goroutine, and nothing has been written.
  abbrev pub settle_write :
      StreamConn S Q F → Outcome (Write (StreamConn S Q F)) → Write (StreamConn S Q F)
  settle_write c (returns y) = y
  settle_write c panics = record { count = 0; err = some Error.crashed; next = c }
  settle_write c deadlocks = record { count = 0; err = some Error.crashed; next = c }

  -- `streamConn` as an `io.Writer`.
  unfoldable pub conn_writer : Writer (StreamConn S Q F)
  conn_writer p c = settle_write c (write_conn net put rand ciph x f env p c)

  module _ (a' : Aead) (salt : List ℕ) where
    -- Nothing has been written, and a salt is ready for the first call.
    abbrev pub Fresh : StreamConn S Q F → List ℕ → List ℕ → Type 0
    Fresh c out raw = Leaving net put rand ciph x f env a' c salt × (out ≡ []) × (raw ≡ [])

    abbrev pub Writing : StreamConn S Q F → List ℕ → List ℕ → Type 0
    Writing c out raw = Fresh c out raw ⊎ Written a' salt c out raw

  module _ (Live : S → List ℕ → List ℕ → Type 0) (a a' : Aead) (salt : List ℕ) where
    -- The plaintext `bs` is still to be read from the connection, and `out` has been written to it. One
    -- of the two directions has begun: both salts go through one filter.
    pub record Both (c : StreamConn S Q F) (bs out : List ℕ) : Type 0 where
      pub raw : List ℕ
      pub reading : Bringing net put rand ciph x f env (λ s w. Live s w raw) a c bs
      pub writing : Writing a' salt c out raw
      pub begun : ((o : Aead × Opener S) × (c.r ≡ some o)) ⊎ ((w : Aead × Sealer) × (c.w ≡ some w))
