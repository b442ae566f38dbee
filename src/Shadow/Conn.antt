-- ===== src/Shadow/Conn.antt =====
-- `streamConn` of m_shadow/stream.go: a network connection whose two directions are encrypted, each
-- under a key of the salt at its start.
pub mod Reading
pub mod Writing
pub mod Source
pub mod EndToEnd
pub mod Both
mod Runs
use miniproxygo.Common.{
  ◌+◌, ◌-◌, ◌*◌, ◌^◌, ℕ, Bool, true, false, Option, none, some, List, [], length, if◌then◌else◌,
}
use miniproxygo.Io.{Error, Result, ok, err, Read, Reader, Write, Writer, is_nil, read_full}
use miniproxygo.Internal.Outcome.{Outcome, returns, panics, ◌>>=◌}
use miniproxygo.Internal.Filter.{Filter}
use miniproxygo.Internal.SaltFilter.{Floats, Env, Salts, check_salt, add_salt}
use miniproxygo.Shadow.Aead.{Aead}
use miniproxygo.Shadow.Cipher.{Cipher}
use miniproxygo.Shadow.Writer.{Sealer, Pumped, new_writer, write, read_from}
use miniproxygo.Shadow.Reader.{Opener, new_reader, read_plain}
use miniproxygo.Shadow.Reader.WriteTo.{Drained, write_to}

-- The fields of `streamConn`, and what it shares with the rest of the process: the random numbers and
-- the salt filter. The reader and the writer of the Go code hold the connection too; here a call puts
-- the connection into the reader, and takes it back.
pub record StreamConn (S Q F : Type 0) : Type 0 where
  pub conn : S
  pub r : Option (Aead × Opener S)
  pub w : Option (Aead × Sealer)
  pub random : Q
  pub salts : Salts F

-- What `WriteTo` and `ReadFrom` return: the number of bytes, the error, and the other end behind it.
pub record Copy (C T : Type 0) : Type 0 where
  pub total : ℕ
  pub err : Option Error
  pub next : C
  pub other : T

module _ {S Q R F : Type 0} (net : Reader S) (put : Writer S) (rand : Reader Q) (ciph : Cipher)
    (x : Floats R) (f : Filter R F) (env : Env) where
  -- A step that may end the method with an error.
  abbrev Attempt : Type 0
  Attempt = Outcome (Option Error × StreamConn S Q F)

  -- The second half of `initReader`, for the cipher of the salt.
  abbrev accept_salt : Result Aead → List ℕ → StreamConn S Q F → Attempt
  accept_salt (err e) salt c = returns (some e, c)
  accept_salt (ok a) salt c = check_salt x f env salt c.salts >>= λ (seen, salts').
      let c' = record c { salts = salts' } in
      returns (
        if seen
        then (some Error.repeated_salt, c')
        else (none, record c' { r = some (a, new_reader a net c.conn) }))

  -- `initReader`
  unfoldable pub init_reader : StreamConn S Q F → Attempt
  init_reader c =
      let y = read_full net ciph.salt_size c.conn in
      let c' = record c { conn = y.next } in
      if is_nil y.err then accept_salt (ciph.decrypter y.got) y.got c' else returns (y.err, c')

  -- The second half of `initWriter`: the salt goes out in the clear.
  abbrev announce_salt : Result Aead → List ℕ → StreamConn S Q F → Attempt
  announce_salt (err e) salt c = returns (some e, c)
  announce_salt (ok a) salt c =
      let y = put salt c.conn in
      let c' = record c { conn = y.next } in
      if is_nil y.err
      then (add_salt x f env salt c.salts >>= λ salts'.
          returns (none, record c' { salts = salts'; w = some (a, new_writer a) }))
      else returns (y.err, c')

  -- `initWriter`
  unfoldable pub init_writer : StreamConn S Q F → Attempt
  init_writer c =
      let y = read_full rand ciph.salt_size c.random in
      let c' = record c { random = y.next } in
      if is_nil y.err then announce_salt (ciph.encrypter y.got) y.got c' else returns (y.err, c')

  -- `if c.r == nil { ... }`: `init` runs unless the field is set.
  abbrev pub unless_set : {X : Type 0} → Option X → StreamConn S Q F → Attempt → Attempt
  unless_set none c init = init
  unless_set (some y) c init = returns (none, c)

  unfoldable pub with_reader : StreamConn S Q F → Attempt
  with_reader c = unless_set c.r c (init_reader c)

  unfoldable pub with_writer : StreamConn S Q F → Attempt
  with_writer c = unless_set c.w c (init_writer c)

  -- A nil reader or writer would panic here; the methods never get that far with one.
  read_through : ℕ → Option (Aead × Opener S) → StreamConn S Q F → Outcome (Read (StreamConn S Q F))
  read_through n none c = panics
  read_through n (some (a, o)) c =
      let y = read_plain a net n (record o { source = c.conn }) in
      returns (record {
        got = y.got;
        err = y.err;
        next = record c { conn = y.next.source; r = some (a, y.next) };
      })

  pub write_through :
      List ℕ → Option (Aead × Sealer) → StreamConn S Q F → Outcome (Write (StreamConn S Q F))
  write_through b none c = panics
  write_through b (some (a, w)) c =
      let y = write a put b w c.conn in
      returns (record {
        count = y.total;
        err = y.err;
        next = record c { conn = y.sink; w = some (a, y.cipher) };
      })

  after_reader : ℕ → Option Error × StreamConn S Q F → Outcome (Read (StreamConn S Q F))
  unfolding read_through
  after_reader n (some e, c) = returns (record { got = []; err = some e; next = c })
  after_reader n (none, c) = read_through n c.r c

  after_writer : List ℕ → Option Error × StreamConn S Q F → Outcome (Write (StreamConn S Q F))
  unfolding write_through
  after_writer b (some e, c) = returns (record { count = 0; err = some e; next = c })
  after_writer b (none, c) = write_through b c.w c

  -- `Read(b)` with `len(b) == n`
  unfoldable pub read_conn : ℕ → StreamConn S Q F → Outcome (Read (StreamConn S Q F))
  unfolding after_reader
  read_conn n c = with_reader c >>= after_reader n

  -- `Write`
  unfoldable pub write_conn : List ℕ → StreamConn S Q F → Outcome (Write (StreamConn S Q F))
  unfolding after_writer
  write_conn b c = with_writer c >>= after_writer b

  module _ {T : Type 0} where
    abbrev pub copy_out :
        Writer T → T → Option Error × StreamConn S Q F → Outcome (Copy (StreamConn S Q F) T)
    copy_out sink t (some e, c) = returns (record { total = 0; err = some e; next = c; other = t })
    copy_out sink t (none, c) = elim c.r [
      | none ↦ panics
      | some (a, o) ↦
          let y = write_to a net sink (record o { source = c.conn }) t in
          returns (record {
            total = y.total;
            err = y.err;
            next = record c { conn = y.next.source; r = some (a, y.next) };
            other = y.sink;
          })
    ]

    abbrev pub copy_in :
        Reader T → T → Option Error × StreamConn S Q F → Outcome (Copy (StreamConn S Q F) T)
    copy_in source t (some e, c) = returns (record { total = 0; err = some e; next = c; other = t })
    copy_in source t (none, c) = elim c.w [
      | none ↦ panics
      | some (a, w) ↦
          let y = read_from a source put w t c.conn in
          returns (record {
            total = y.total;
            err = y.err;
            next = record c { conn = y.sink; w = some (a, y.cipher) };
            other = y.source;
          })
    ]

    -- `WriteTo`
    unfoldable pub write_conn_to :
        Writer T → T → StreamConn S Q F → Outcome (Copy (StreamConn S Q F) T)
    write_conn_to sink t c = with_reader c >>= copy_out sink t

    -- `ReadFrom`
    unfoldable pub read_conn_from :
        Reader T → T → StreamConn S Q F → Outcome (Copy (StreamConn S Q F) T)
    read_conn_from source t c = with_writer c >>= copy_in source t

-- `NewConn`: no salt has been read or written.
abbrev pub new_conn : {S Q F : Type 0} → S → Q → Salts F → StreamConn S Q F
new_conn s q salts = record { conn = s; r = none; w = none; random = q; salts = salts }

-- A bound on the calls of `Read` that are left, from that of the network connection.
abbrev pub kept : {S : Type 0} → Option (Aead × Opener S) → ℕ
kept none = 0
kept (some (a, o)) = o.left_hi - o.left_lo

abbrev pub conn_budget : {S Q F : Type 0} → Reader S → StreamConn S Q F → ℕ
conn_budget net c = net.budget c.conn * 2 ^ 14 + kept c.r
