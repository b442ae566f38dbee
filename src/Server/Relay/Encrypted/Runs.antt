-- ===== src/Server/Relay/Encrypted/Runs.antt =====
-- Runs of `WriteTo` and `ReadFrom` of an encrypted connection.
use miniproxygo.Common.{ℕ, ◌≡◌, refl, false, none, List, [], ◌∷◌, ◌++◌}
use miniproxygo.Io.{read_full}
use miniproxygo.Io.Buffer.{buffer}
use miniproxygo.Io.Network.{Conn, chunk, network, send}
use miniproxygo.Internal.Outcome.{returns}
use miniproxygo.Internal.BloomRing.{add, add_entry, test, test_slots}
use miniproxygo.Internal.SaltFilter.{check_salt, add_salt, get_salt_filter_singleton}
use miniproxygo.Internal.Toy.{exact, whole, ready, off}
use miniproxygo.Shadow.Nonce.{increment}
use miniproxygo.Shadow.Toy.{ciph, salt}
use miniproxygo.Shadow.Cipher.{encrypter, decrypter, aes_gcm, salt_size}
use miniproxygo.Shadow.Writer.{new_writer, read_from, pump, seal_record}
use miniproxygo.Shadow.Reader.{new_reader, read_record, read_box}
use miniproxygo.Shadow.Reader.WriteTo.{write_to, flush_leftover, drain}
use miniproxygo.Shadow.Conn.{
  StreamConn, Copy, new_conn, with_reader, init_reader, with_writer, init_writer, write_conn_to,
  read_conn_from,
}

abbrev Encrypted : Type 0
Encrypted = StreamConn Conn (List ℕ) (List (List ℕ))

abbrev idle : Conn
idle = record { incoming = []; outgoing = []; refusals = []; closed = false }

-- A salt and a record of two bytes, in two pieces.
abbrev sealed : Encrypted
sealed =
    new_conn
      (record idle { incoming = chunk (salt ++ 0 ∷ 0 ∷ []) ∷ chunk (2 ∷ 1 ∷ 7 ∷ 8 ∷ []) ∷ [] }) []
      ready

taken_out :
    (z : Copy Encrypted Conn) × (write_conn_to network send buffer ciph whole exact off send idle
        sealed
      ≡ returns z)
    × (z.err ≡ none)
    × (z.other ≡ record idle { outgoing = 7 ∷ 8 ∷ [] })
unfolding write_conn_to with_reader init_reader network read_full send decrypter aes_gcm salt_size
    check_salt get_salt_filter_singleton test test_slots new_reader write_to flush_leftover drain
    read_record read_box increment
taken_out = (_, refl, refl, refl)

-- Two bytes in two pieces.
abbrev plain : Conn
plain = record idle { incoming = chunk (7 ∷ []) ∷ chunk (8 ∷ []) ∷ [] }

abbrev fresh : Encrypted
fresh = new_conn idle salt ready

put_in :
    (z : Copy Encrypted Conn) × (read_conn_from network send buffer ciph whole exact off network
        plain fresh
      ≡ returns z)
    × (z.err ≡ none)
unfolding read_conn_from with_writer init_writer network read_full buffer send encrypter aes_gcm
    salt_size add_salt get_salt_filter_singleton add add_entry new_writer read_from pump seal_record
    increment
put_in = (_, refl, refl)
