-- ===== src/Server/Relay/Encrypted.antt =====
-- `io.Copy` of m_server/socks_server.go where one end is a `streamConn` of m_shadow/stream.go: it calls
-- `WriteTo` to copy from it and `ReadFrom` to copy to it, and here is a round of the loop of each. The
-- first round makes the reader or the writer.
pub mod Out
pub mod In
pub mod Rounds
pub mod RoundsIn
mod Runs
use miniproxygo.Common.{
  ℕ, ◌+◌, ◌==◌, Option, none, some, List, [], length, take, slice, ltb, if◌then◌else◌, Bool, true,
  false,
}
use miniproxygo.Io.{Error, Reader, Writer, is_nil}
use miniproxygo.Internal.Outcome.{Outcome, returns, panics, deadlocks, ◌>>=◌}
use miniproxygo.Internal.Filter.{Filter}
use miniproxygo.Internal.SaltFilter.{Floats, Env}
use miniproxygo.Shadow.Aead.{Aead}
use miniproxygo.Shadow.Frame.{payload_size_mask}
use miniproxygo.Shadow.Cipher.{Cipher}
use miniproxygo.Shadow.Writer.{Sealer, seal_record, frame_of}
use miniproxygo.Shadow.Reader.{Opener, read_record}
use miniproxygo.Shadow.Conn.{StreamConn, with_reader, with_writer}
use miniproxygo.Server.Relay.{Side, copying, ended, Round, after_read}

-- An error of a write ends the loop.
abbrev pub unless_failed : Option Error → Side → Side
unless_failed none side = side
unless_failed (some e) side = ended (some e)

-- A call that does not return ends the goroutine.
abbrev pub settle_round : {S T : Type 0} → S → T → Outcome (Round S T) → Round S T
settle_round s t (returns y) = y
settle_round s t panics = record { side = ended (some Error.crashed); source = s; sink = t }
settle_round s t deadlocks = record { side = ended (some Error.crashed); source = s; sink = t }

-- The connection with its reader in the state `o`.
abbrev pub reading_on : {S Q F : Type 0} → StreamConn S Q F → Aead → Opener S → StreamConn S Q F
reading_on c a o = record c { conn = o.source; r = some (a, o) }

module _ {S Q R F T : Type 0} (net : Reader S) (put : Writer S) (rand : Reader Q) (ciph : Cipher)
    (x : Floats R) (f : Filter R F) (env : Env) where
  -- A round of the loops of `reader.WriteTo`: the first one as long as there is a `leftover`.
  unfoldable pub open_round :
      Writer T → Aead → Opener S → StreamConn S Q F → T → Round (StreamConn S Q F) T
  open_round sink a o c t =
      let z = read_record a net o in
      let flushed = sink (slice o.left_lo o.left_hi o.buf) t in
      let y = sink (take z.size z.next.buf) t in
      if ltb o.left_lo o.left_hi
      then record {
        side = unless_failed flushed.err copying;
        source = reading_on c a (record o { left_lo = o.left_lo + flushed.count });
        sink = flushed.next;
      }
      else if z.size == 0
      then record { side = after_read z.err; source = reading_on c a z.next; sink = t }
      else record {
        side = unless_failed y.err (after_read z.err);
        source = reading_on c a z.next;
        sink = y.next;
      }

  abbrev pub open_with :
      Writer T
      → T
      → StreamConn S Q F
      → Option (Aead × Opener S)
      → Outcome (Round (StreamConn S Q F) T)
  open_with sink t c none = panics
  open_with sink t c (some (a, o)) = returns (open_round sink a (record o { source = c.conn }) c t)

  abbrev pub open_through :
      Writer T → T → Option Error × StreamConn S Q F → Outcome (Round (StreamConn S Q F) T)
  open_through sink t (some e, c) = returns (record { side = ended (some e); source = c; sink = t })
  open_through sink t (none, c) = open_with sink t c c.r

  -- `streamConn.WriteTo`
  unfoldable pub write_to_round : Writer T → StreamConn S Q F → T → Round (StreamConn S Q F) T
  write_to_round sink c t =
      settle_round c t (with_reader net put rand ciph x f env c >>= open_through sink t)

  -- A round of the loop of `writer.ReadFrom`.
  unfoldable pub seal_round :
      Reader T → Aead → Sealer → T → StreamConn S Q F → Round T (StreamConn S Q F)
  seal_round source a w t c =
      let z = source.read payload_size_mask t in
      let w' = seal_record a z.got w in
      let y = put (frame_of a (length z.got) w') c.conn in
      if length z.got == 0
      then record { side = after_read z.err; source = z.next; sink = c }
      else record {
        side = unless_failed y.err (after_read z.err);
        source = z.next;
        sink = record c { conn = y.next; w = some (a, w') };
      }

  abbrev pub seal_with :
      Reader T
      → T
      → StreamConn S Q F
      → Option (Aead × Sealer)
      → Outcome (Round T (StreamConn S Q F))
  seal_with source t c none = panics
  seal_with source t c (some (a, w)) = returns (seal_round source a w t c)

  abbrev pub seal_through :
      Reader T → T → Option Error × StreamConn S Q F → Outcome (Round T (StreamConn S Q F))
  seal_through source t (some e, c) =
      returns (record { side = ended (some e); source = t; sink = c })
  seal_through source t (none, c) = seal_with source t c c.w

  -- `streamConn.ReadFrom`
  unfoldable pub read_from_round : Reader T → T → StreamConn S Q F → Round T (StreamConn S Q F)
  read_from_round source t c =
      settle_round t c (with_writer net put rand ciph x f env c >>= seal_through source t)
