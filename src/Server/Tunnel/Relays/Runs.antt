-- ===== src/Server/Tunnel/Relays/Runs.antt =====
-- Both halves through `relay`, on concrete connections.
use miniproxygo.Common.{
  ℕ, ◌+◌, ◌≡◌, refl, Bool, true, false, none, some, List, [], ◌∷◌, ◌++◌, replicate, arith, ◌==◌,
  length,
}
use miniproxygo.Io.{Error, Result, ok, read_full}
use miniproxygo.Io.Buffer.{buffer}
use miniproxygo.Io.Network.{Conn, chunk, network, send, Open, network-Duplex}
use miniproxygo.Internal.Outcome.{returns}
use miniproxygo.Internal.BloomRing.{add, add_entry, test, test_slots}
use miniproxygo.Internal.SaltFilter.{Salts, check_salt, add_salt, get_salt_filter_singleton}
use miniproxygo.Internal.Toy.{ring, exact, whole, ready, off}
use miniproxygo.Shadow.Nonce.{increment}
use miniproxygo.Shadow.Toy.{toy, toy-IsAead, toy-Stream, ciph, meta, salt, salted}
use miniproxygo.Shadow.Cipher.{encrypter, decrypter, aes_gcm, salt_size, salt_size_bounds}
use miniproxygo.Shadow.Writer.{new_writer, write, read_from, seal_record}
use miniproxygo.Shadow.Conn.{
  StreamConn, new_conn, conn_budget, write_conn, with_writer, init_writer,
}
use miniproxygo.Shadow.Conn.Both.Begin.{Leading, Starting}
use miniproxygo.Socks.Addr.{fill, read_addr_into, read_by_type}
use miniproxygo.Socks.Addr.Wire.{encode}
use miniproxygo.Socks.HandShake.{
  connect_reply, method_reply, hand_shake, read_head, write_reply, read_target, reply, ◌>>=◌,
}
use miniproxygo.Server.Relay.{
  Round, Relay, relay_start, up_round, down_round, Reach, here, later, up_goes_on, down_goes_on,
}
use miniproxygo.Server.Relay.Encrypted.{write_to_round, read_from_round}
use miniproxygo.Server.Tunnel.{connects, proxies, local_conn, remote_conn}
use miniproxygo.Server.Tunnel.Runs.{
  no_net, site, idle, client, answered, wire, first_salt, keyed, sized, carried, new_salt,
}
use miniproxygo.Server.Cork.{corked_write, buffered_write}
use miniproxygo.Server.Cork.Timed.{Timed, timed, timed_reader, timed_write}
use miniproxygo.Server.Cork.Contract.{Corked, timed-Duplex, timed-Corked}
use miniproxygo.Server.Tunnel.Relays.{Relayed}
use miniproxygo.Server.Tunnel.Relays.Local.{local_conn-Relayed}
use miniproxygo.Server.Tunnel.Relays.Remote.{remote_conn-Both, remote_conn-Relayed}

abbrev timed_out : Error
timed_out = Error.network 110

abbrev is_timed_out : Error → Bool
is_timed_out (Error.network n) = n == 110
is_timed_out _ = false

-- The remote half's salt, and two bytes of an answer behind it, in two pieces.
abbrev their_salt : List ℕ
their_salt = replicate 16 9

abbrev answering : Conn
answering = record idle {
  incoming = chunk (their_salt ++ 0 ∷ 0 ∷ 2 ∷ []) ∷ chunk (1 ∷ 7 ∷ 8 ∷ []) ∷ [];
}

abbrev Encrypted : Type 0
Encrypted = StreamConn Conn (List ℕ) (List (List ℕ))

their_salt_new : check_salt whole exact off their_salt salted ≡ returns (false, salted)
unfolding check_salt get_salt_filter_singleton test test_slots
their_salt_new = refl

their_size : length their_salt ≡ salt_size meta
unfolding salt_size
their_size = refl

their_key : ciph.decrypter their_salt ≡ ok toy
unfolding decrypter aes_gcm
their_key = refl

abbrev CorkedStream : Type 0
CorkedStream = StreamConn (Timed Conn) (List ℕ) (List (List ℕ))

-- The timer fires before the third write.
abbrev fires : List Bool
fires = false ∷ false ∷ true ∷ []

leading :
    Leading
      (timed_reader network)
      (timed_write send)
      buffer
      ciph
      whole
      exact
      off
      (Corked network send Open network-Duplex)
      (timed-Duplex network send Open network-Duplex)
      toy
      toy-IsAead
      toy
      toy-IsAead
      salt
      (new_conn (timed fires answering) salt ready)
      (7 ∷ 8 ∷ [])
leading = record {
  leaving = record {
    salts = salted;
    nothing_written = refl;
    drawn = (first_salt answering fires).drawn;
    no_error = (first_salt answering fires).no_error;
    keyed = (first_salt answering fires).keyed;
    recorded = unfold add add_entry add_salt get_salt_filter_singleton in refl;
  };
  their_salt = their_salt;
  wire = 0 ∷ 0 ∷ 2 ∷ 1 ∷ 7 ∷ 8 ∷ [];
  salts = salted;
  nothing_read = refl;
  salt_fits = their_size;
  not_empty = omega (arith, (salt_size_bounds meta).0);
  keyed = their_key;
  new_salt = their_salt_new;
  input =
      timed-Corked network send Open network-Duplex fires answering
        (their_salt ++ 0 ∷ 0 ∷ 2 ∷ 1 ∷ 7 ∷ 8 ∷ []) ((tt, refl), (refl, refl));
  carried = toy-Stream;
}

asked_ran :
    (sc : CorkedStream) × (local_conn
        (timed_reader network)
        (timed_write send)
        buffer
        ciph
        whole
        exact
        off
        network
        send
        no_net
        false
        []
        (timed fires)
        (ok answering)
        salt
        ready
        client
      ≡ returns (proxies (encode site) answered sc))
unfolding local_conn hand_shake ◌>>=◌ read_head fill read_full network write_reply send read_target
    read_addr_into read_by_type reply write_conn with_writer init_writer salt_size buffer add
    add_entry add_salt get_salt_filter_singleton increment new_writer read_from seal_record write
    encrypter aes_gcm timed_reader timed_write corked_write buffered_write
asked_ran = (_, refl)

abbrev takes : Encrypted → Conn → Round Encrypted Conn
takes = write_to_round network send buffer ciph whole exact off send

abbrev gives : Conn → Encrypted → Round Conn Encrypted
gives = read_from_round network send buffer ciph whole exact off network

abbrev up : Relay Encrypted Conn → Relay Encrypted Conn
up = up_round takes gives 60 timed_out

abbrev down : Relay Encrypted Conn → Relay Encrypted Conn
down = down_round takes gives 60 timed_out

-- One round in each direction.
turns :
    (c : Encrypted) (d : Conn)
    → Reach takes gives 60 timed_out (relay_start c d) 2 (down (up (relay_start c d)))
unfolding up_round
turns c d = later (later here (up_goes_on refl refl)) (down_goes_on refl refl)

abbrev local_takes : CorkedStream → Conn → Round CorkedStream Conn
local_takes =
    write_to_round (timed_reader network) (timed_write send) buffer ciph whole exact off send

abbrev local_gives : Conn → CorkedStream → Round Conn CorkedStream
local_gives =
    read_from_round (timed_reader network) (timed_write send) buffer ciph whole exact off network

abbrev local_up : Relay CorkedStream Conn → Relay CorkedStream Conn
local_up = up_round local_takes local_gives 60 timed_out

abbrev local_down : Relay CorkedStream Conn → Relay CorkedStream Conn
local_down = down_round local_takes local_gives 60 timed_out

local_turns :
    (c : CorkedStream) (d : Conn)
    → Reach local_takes local_gives 60 timed_out
        (relay_start c d)
        2
        (local_down (local_up (relay_start c d)))
unfolding up_round
local_turns c d = later (later here (up_goes_on refl refl)) (down_goes_on refl refl)

local_conn-Relayed_example :
    Relayed
      (timed_reader network)
      (timed_write send)
      buffer
      ciph
      whole
      exact
      off
      (Corked network send Open network-Duplex)
      (timed-Duplex network send Open network-Duplex)
      toy
      toy-IsAead
      toy
      toy-IsAead
      salt
      network
      send
      Open
      network-Duplex
      60
      timed_out
      is_timed_out
      (7 ∷ 8 ∷ [])
      (encode site)
      (42 ∷ [])
      (method_reply ++ connect_reply)
      (conn_budget (timed_reader network) asked_ran.0 + network.budget answered + 2)
      2
      (local_down (local_up (relay_start asked_ran.0 answered)))
local_conn-Relayed_example =
    local_conn-Relayed (timed_reader network) (timed_write send) buffer ciph whole exact off
      (Corked network send Open network-Duplex) (timed-Duplex network send Open network-Duplex) toy
      toy-IsAead toy toy-IsAead salt network send Open network-Duplex 60 timed_out is_timed_out
      no_net false [] (timed fires) answering salt ready 5 5 0 (0 ∷ []) site (42 ∷ []) (7 ∷ 8 ∷ [])
      (encode site) client answered asked_ran.0 2
      (local_down (local_up (relay_start asked_ran.0 answered))) (omega arith) (omega arith)
      ((tt, refl), (refl, refl)) leading refl asked_ran.1 (local_turns asked_ran.0 answered)

-- The stream that the local half sends, whole, and the remote half's salt at hand.
abbrev asking : Encrypted
asking = new_conn (record idle { incoming = chunk (salt ++ wire) ∷ [] }) their_salt ready

abbrev their_salted : Salts (List (List ℕ))
their_salted = record {
  saltfilter = some (record ring { entry_counter = 1; slots = (their_salt ∷ []) ∷ [] ∷ [] ∷ [] });
  initialized = true;
}

their_record : add_salt whole exact off their_salt ready ≡ returns their_salted
unfolding add_salt add add_entry get_salt_filter_singleton
their_record = refl

their_draw :
    ((read_full buffer ciph.salt_size their_salt).got ≡ their_salt)
    × ((read_full buffer ciph.salt_size their_salt).err ≡ none)
unfolding read_full buffer salt_size
their_draw = (refl, refl)

their_seal : ciph.encrypter their_salt ≡ ok toy
unfolding encrypter aes_gcm
their_seal = refl

starting :
    Starting network send buffer ciph whole exact off Open network-Duplex toy toy-IsAead toy
      toy-IsAead their_salt asking
      (encode site ++ 42 ∷ [])
starting = record {
  arriving = record {
    salt = salt;
    wire = wire;
    salts = ready;
    nothing_read = refl;
    salt_fits = sized;
    not_empty = omega (arith, (salt_size_bounds meta).0);
    keyed = keyed;
    new_salt = new_salt;
    input = ((tt, refl), (refl, refl));
    carried = carried;
  };
  salts = their_salted;
  nothing_written = refl;
  drawn = their_draw.0;
  no_error = their_draw.1;
  keyed = their_seal;
  recorded = their_record;
}

-- The target answers with two bytes.
abbrev answers : Conn
answers = record idle { incoming = chunk (7 ∷ []) ∷ chunk (8 ∷ []) ∷ [] }

abbrev dials : List ℕ → Result Conn
dials t = ok answers

connected :
    (sc : Encrypted) × (remote_conn network send buffer ciph whole exact off no_net dials asking
      ≡ connects answers sc)
connected =
    let met =
      remote_conn-Both network send buffer ciph whole exact off Open network-Duplex toy toy-IsAead
        toy toy-IsAead their_salt network send Open network-Duplex 60 timed_out no_net dials answers
        site (42 ∷ []) asking (omega arith) starting refl in
    (met.0, met.1)

remote_conn-Relayed_example :
    Relayed network send buffer ciph whole exact off Open network-Duplex toy toy-IsAead toy
      toy-IsAead their_salt network send Open network-Duplex 60 timed_out is_timed_out
      (42 ∷ [])
      []
      (7 ∷ 8 ∷ [])
      []
      (conn_budget network connected.0 + network.budget answers + 2)
      2
      (down (up (relay_start connected.0 answers)))
remote_conn-Relayed_example =
    remote_conn-Relayed network send buffer ciph whole exact off Open network-Duplex toy toy-IsAead
      toy toy-IsAead their_salt network send Open network-Duplex 60 timed_out is_timed_out no_net
      dials answers answers site (42 ∷ []) (7 ∷ 8 ∷ []) asking connected.0 2
      (down (up (relay_start connected.0 answers))) (omega arith) starting refl
      ((tt, refl), (refl, refl)) refl connected.1 (turns connected.0 answers)
