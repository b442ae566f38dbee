-- ===== src/Shadow/Conn/Runs.antt =====
-- Runs of `streamConn`, and its theorems at concrete inputs.
use miniproxygo.Common.{ℕ, ◌≡◌, refl, true, false, none, some, List, [], ◌∷◌, ◌++◌, arith, length}
use miniproxygo.Io.{Error, ok, read_full}
use miniproxygo.Io.Buffer.{buffer}
use miniproxygo.Io.Network.{
  Conn, chunk, Duplex, network, send, Incoming, Open, network-Delivers, network-Duplex,
}
use miniproxygo.Internal.Outcome.{returns}
use miniproxygo.Internal.BloomRing.{add, add_entry, test, test_slots}
use miniproxygo.Internal.SaltFilter.{check_salt, add_salt, get_salt_filter_singleton}
use miniproxygo.Internal.Toy.{exact, whole, ready, off}
use miniproxygo.Shadow.Nonce.{increment}
use miniproxygo.Shadow.Frame.{concat}
use miniproxygo.Shadow.Toy.{meta, ciph, salt, salted, toy-Stream, toy, toy-IsAead, toy_crypto}
use miniproxygo.Shadow.Cipher.{encrypter, decrypter, aes_gcm, salt_size, salt_size_bounds}
use miniproxygo.Shadow.Writer.{new_writer, write, seal_record}
use miniproxygo.Shadow.Conn.{StreamConn, new_conn, read_conn, write_conn, with_writer, init_writer}
use miniproxygo.Shadow.Conn.Reading.{Handed, Arriving}
use miniproxygo.Shadow.Conn.Writing.{write_each, Leaving}
use miniproxygo.Shadow.Conn.Source.{conn_reader}
use miniproxygo.Shadow.Conn.Both.{Both, conn_writer}
use miniproxygo.Shadow.Conn.Both.Contract.{conn-Duplex}
use miniproxygo.Shadow.Conn.EndToEnd.{read_conn-write_each, repeated_salt_refused, replay_accepted}

abbrev idle : Conn
idle = record { incoming = []; outgoing = []; refusals = []; closed = false }

-- The salt is the first that the random numbers give.
abbrev local : StreamConn Conn (List ℕ) (List (List ℕ))
local = new_conn idle salt ready

local-Leaving : Leaving network send buffer ciph whole exact off toy local salt
unfolding read_full buffer encrypter aes_gcm salt_size add_salt get_salt_filter_singleton add
    add_entry
local-Leaving = record {
  salts = salted;
  nothing_written = refl;
  drawn = refl;
  no_error = refl;
  keyed = refl;
  recorded = refl;
}

abbrev wire : List ℕ
wire = 0 ∷ 0 ∷ 2 ∷ 1 ∷ 7 ∷ 8 ∷ []

abbrev local_done : StreamConn Conn (List ℕ) (List (List ℕ))
local_done = record {
  conn = record idle { outgoing = salt ++ wire };
  r = none;
  w = some (
    toy,
    (write toy send (7 ∷ 8 ∷ []) (new_writer toy) (record idle { outgoing = salt })).cipher,
  );
  random = [];
  salts = salted;
}

local_wrote :
    write_each network send buffer ciph whole exact off ((7 ∷ 8 ∷ []) ∷ []) local
    ≡ returns (none, local_done)
unfolding write_each write_conn with_writer init_writer read_full salt_size buffer encrypter aes_gcm
    send add_salt get_salt_filter_singleton add write seal_record add_entry new_writer increment
local_wrote = refl

-- The same bytes at the other end, in pieces of other sizes.
abbrev remote : StreamConn Conn (List ℕ) (List (List ℕ))
remote =
    new_conn
      (record idle {
        incoming = chunk (salt ++ 0 ∷ []) ∷ chunk (0 ∷ 2 ∷ 1 ∷ 7 ∷ []) ∷ chunk (8 ∷ []) ∷ [];
      })
      [] ready

new_to_remote : check_salt whole exact off salt ready ≡ returns (false, ready)
unfolding check_salt get_salt_filter_singleton test test_slots
new_to_remote = refl

salt_sized : length salt ≡ salt_size meta
unfolding salt_size
salt_sized = refl

read_conn-write_each_example :
    Handed network send buffer ciph whole exact off Incoming toy remote 5
      (concat ((7 ∷ 8 ∷ []) ∷ []))
      (read_conn network send buffer ciph whole exact off 5 remote)
read_conn-write_each_example =
    read_conn-write_each buffer toy_crypto meta whole exact off off toy toy-IsAead (7 ∷ 8 ∷ []) []
      salt local local_done remote ready 5 local-Leaving (refl, refl) local_wrote refl (tt, refl)
      salt_sized new_to_remote (omega arith)

keyed : ciph.decrypter salt ≡ ok toy
unfolding decrypter aes_gcm
keyed = refl

-- The process reads a stream that begins with the salt that it has sent itself.
abbrev mirrored : StreamConn Conn (List ℕ) (List (List ℕ))
mirrored = record remote { salts = salted }

known : check_salt whole exact off salt salted ≡ returns (true, salted)
unfolding check_salt get_salt_filter_singleton test test_slots
known = refl

repeated_salt_refused_example :
    (c : StreamConn Conn (List ℕ) (List (List ℕ))) × (read_conn network send buffer ciph whole exact
        off 5 mirrored
      ≡ returns (record { got = []; err = some Error.repeated_salt; next = c }))
    × (c.r ≡ none)
repeated_salt_refused_example =
    repeated_salt_refused network send buffer ciph whole exact off Incoming network-Delivers toy
      mirrored salt wire salted 5 refl salt_sized (tt, refl) keyed known

abbrev remote_arriving :
    Arriving network send buffer ciph whole exact off Incoming toy remote (7 ∷ 8 ∷ [])
remote_arriving = record {
  salt = salt;
  wire = wire;
  salts = ready;
  nothing_read = refl;
  salt_fits = salt_sized;
  not_empty = omega (arith, (salt_size_bounds meta).0);
  keyed = keyed;
  new_salt = new_to_remote;
  input = (tt, refl);
  carried = toy-Stream;
}

replay_accepted_example :
    Handed network send buffer ciph whole exact off Incoming toy remote 5
      (7 ∷ 8 ∷ [])
      (read_conn network send buffer ciph whole exact off 5 remote)
replay_accepted_example =
    replay_accepted network send buffer ciph whole exact off Incoming network-Delivers toy
      toy-IsAead (7 ∷ 8 ∷ []) remote remote 5 remote_arriving refl (tt, refl) refl (omega arith)

conn-Duplex_example :
    Duplex
      (conn_reader network send buffer ciph whole exact off)
      (conn_writer network send buffer ciph whole exact off)
      (Both network send buffer ciph whole exact off Open toy toy salt)
conn-Duplex_example =
    conn-Duplex network send buffer ciph whole exact off Open network-Duplex toy toy-IsAead toy
      toy-IsAead salt
