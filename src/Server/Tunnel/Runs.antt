-- ===== src/Server/Tunnel/Runs.antt =====
-- A client's connection through both halves, and the theorems on it.
use miniproxygo.Common.{
  ℕ, ◌≡◌, refl, sym, Bool, true, false, none, some, List, [], ◌∷◌, ◌++◌, arith, length,
}
use miniproxygo.Io.{ok, read_full}
use miniproxygo.Io.Buffer.{buffer}
use miniproxygo.Io.Network.{
  Conn, chunk, network, send, Incoming, Outgoing, Open, send-Sends, network-Duplex,
}
use miniproxygo.Internal.Outcome.{returns}
use miniproxygo.Internal.BloomRing.{add, add_entry, test, test_slots}
use miniproxygo.Internal.SaltFilter.{check_salt, add_salt, get_salt_filter_singleton}
use miniproxygo.Internal.Toy.{exact, whole, ready, off}
use miniproxygo.Shadow.Nonce.{zeros, increment}
use miniproxygo.Shadow.Frame.{box, frames}
use miniproxygo.Shadow.Toy.{toy, toy_crypto, toy-IsAead, ciph, meta, salt, salted}
use miniproxygo.Shadow.Cipher.{encrypter, decrypter, aes_gcm, salt_size}
use miniproxygo.Shadow.RoundTrip.{Stream}
use miniproxygo.Shadow.Conn.{StreamConn, new_conn}
use miniproxygo.Shadow.Conn.Source.{Bringing}
use miniproxygo.Shadow.Conn.Writing.{Leaving}
use miniproxygo.Socks.Addr.{Net, to_string}
use miniproxygo.Socks.Addr.Wire.{Address, domain, encode}
use miniproxygo.Socks.HandShake.{
  connect_reply, method_reply, hand_shake, read_head, write_reply, read_target, reply, ◌>>=◌,
}
use miniproxygo.Socks.Addr.{fill, read_addr_into, read_by_type}
use miniproxygo.Socks.HandShake.Replies.{greeting, request}
use miniproxygo.Server.Cork.{corked_write, buffered_write, timer_end, uncork, flush}
use miniproxygo.Server.Cork.Timed.{
  Timed, timed, timed_reader, timed_write, Gathered, timed_write-Sends, timed-Gathered, Below,
}
use miniproxygo.Server.Tunnel.{connects, proxies, local_conn, serve_accepted}
use miniproxygo.Shadow.Writer.{new_writer, write, read_from, seal_record}
use miniproxygo.Shadow.Conn.{write_conn, with_writer, init_writer}
use miniproxygo.Shadow.Conn.Writing.{write_each}
use miniproxygo.Server.Tunnel.Joined.{remote_conn-local_conn}
use miniproxygo.Server.Tunnel.Target.{local_conn-proxies}

abbrev pub no_net : Net
no_net = record {
  split_host_port = λ t. none;
  join_host_port = λ h p. h ++ b':' ∷ p;
  parse_ip = λ t. none;
  to4 = λ ip. none;
  ip_string = λ ip. ip;
}

-- The name `ab` and the port 443.
abbrev pub site : Address
site = domain (97 ∷ 98 ∷ []) 1 187

abbrev pub idle : Conn
idle = record { incoming = []; outgoing = []; refusals = []; closed = false }

-- The client offers one method, asks for the site and sends one byte of its own.
abbrev pub client : Conn
client = record idle {
  incoming = chunk (greeting 5 (0 ∷ [])) ∷ chunk (request 5 1 0 site ++ 42 ∷ []) ∷ [];
}

pub first_salt :
    (c : Conn) (fires : List Bool)
    → Leaving
        (timed_reader network)
        (timed_write send)
        buffer
        ciph
        whole
        exact
        off
        toy
        (new_conn (timed fires c) salt ready)
        salt
unfolding read_full buffer encrypter aes_gcm salt_size add_salt get_salt_filter_singleton add
    add_entry
first_salt c fires = record {
  salts = salted;
  nothing_written = refl;
  drawn = refl;
  no_error = refl;
  keyed = refl;
  recorded = refl;
}

-- The timer has not fired yet.
local_conn-proxies_example :
    (c : Conn) × (sc : StreamConn (Timed Conn) (List ℕ) (List (List ℕ))) × (wire : List ℕ)
    × (local_conn
          (timed_reader network)
          (timed_write send)
          buffer
          ciph
          whole
          exact
          off
          network
          send
          no_net
          false
          []
          (timed [])
          (ok idle)
          salt
          ready
          client
        ≡ returns (proxies (encode site) c sc))
    × Open c (42 ∷ []) (method_reply ++ connect_reply)
    × Gathered send Outgoing send-Sends sc.conn (salt ++ wire)
    × Stream toy (zeros 1) (encode site) wire
local_conn-proxies_example =
    local_conn-proxies (timed_reader network) (timed_write send) buffer ciph whole exact off toy
      toy-IsAead (Gathered send Outgoing send-Sends) (timed_write-Sends send Outgoing send-Sends)
      network send no_net false [] Open network-Duplex (timed []) idle salt ready 5 5 0 (0 ∷ [])
      site (42 ∷ []) salt client (omega arith) (omega arith) ((tt, refl), (refl, refl))
      (first_salt idle []) (timed-Gathered send Outgoing send-Sends [] idle (refl, refl))

-- The address and the client's byte in one record.
abbrev pub wire : List ℕ
wire = 0 ∷ 0 ∷ 7 ∷ 1 ∷ (encode site ++ 42 ∷ [])

abbrev pub arriving : StreamConn Conn (List ℕ) (List (List ℕ))
arriving = new_conn (record idle { incoming = chunk (salt ++ wire) ∷ [] }) [] ready

pub carried : Stream toy (zeros 1) (encode site ++ 42 ∷ []) wire
unfolding frames box increment
carried = record {
  records = (encode site ++ 42 ∷ []) ∷ [];
  payloads = omega arith;
  same_bytes = refl;
  same_out = refl;
}

pub new_salt : check_salt whole exact off salt ready ≡ returns (false, ready)
unfolding check_salt get_salt_filter_singleton test test_slots
new_salt = refl

pub sized : length salt ≡ salt_size meta
unfolding salt_size
sized = refl

pub keyed : ciph.decrypter salt ≡ ok toy
unfolding decrypter aes_gcm
keyed = refl

-- The address and the client's byte in a record each, as the local half sends them.
abbrev pub sealed_site : List ℕ
sealed_site = 0 ∷ 0 ∷ 6 ∷ 1 ∷ encode site

abbrev pub site_sent : StreamConn Conn (List ℕ) (List (List ℕ))
site_sent = record {
  conn = record idle { outgoing = salt ++ sealed_site };
  r = none;
  w = some (
    toy,
    (write toy send (encode site) (new_writer toy) (record idle { outgoing = salt })).cipher,
  );
  random = [];
  salts = salted;
}

-- The client's connection once it has been answered.
abbrev pub answered : Conn
answered = record idle { incoming = chunk (42 ∷ []) ∷ []; outgoing = method_reply ++ connect_reply }

abbrev Corked : Type 0
Corked = StreamConn (Timed Conn) (List ℕ) (List (List ℕ))

-- The timer fires behind the salt and the address, before the client's byte.
abbrev turns : List Bool
turns = false ∷ false ∷ true ∷ []

local_ran :
    (sc : Corked) × (local_conn
        (timed_reader network)
        (timed_write send)
        buffer
        ciph
        whole
        exact
        off
        network
        send
        no_net
        false
        []
        (timed turns)
        (ok idle)
        salt
        ready
        client
      ≡ returns (proxies (encode site) answered sc))
unfolding local_conn hand_shake ◌>>=◌ read_head fill read_full network write_reply send read_target
    read_addr_into read_by_type reply write_conn with_writer init_writer salt_size buffer add
    add_entry add_salt get_salt_filter_singleton increment new_writer read_from seal_record write
    encrypter aes_gcm timed_reader timed_write corked_write buffered_write
local_ran = (_, refl)

byte_wrote :
    (sc : Corked) × (write_each
        (timed_reader network)
        (timed_write send)
        buffer
        ciph
        whole
        exact
        off
        ((42 ∷ []) ∷ [])
        local_ran.0
      ≡ returns (none, sc))
    × ((timer_end send sc.conn.conn).corked ≡ false)
    × ((timer_end send sc.conn.conn).bufw.wr.outgoing
        ≡ (salt ++ sealed_site) ++ (2 ∷ 0 ∷ 1 ∷ 3 ∷ 42 ∷ []))
unfolding write_each write_conn with_writer buffer send network increment new_writer read_from
    seal_record write timed_reader timed_write corked_write buffered_write timer_end uncork flush
    local_ran
byte_wrote = (_, refl, refl, refl)

-- What has gone out, in three pieces.
abbrev joined : Conn
joined = record idle {
  incoming = chunk (salt ++ sealed_site) ∷ chunk (2 ∷ 0 ∷ 1 ∷ []) ∷ chunk (3 ∷ 42 ∷ []) ∷ [];
}

remote_conn-local_conn_example :
    (sc : Corked) × (serve_accepted
        (timed_reader network)
        (timed_write send)
        buffer
        ciph
        whole
        exact
        off
        no_net
        (λ t. ok t)
        (timed [])
        []
        ready
        joined
      ≡ connects (to_string no_net (encode site)) sc)
    × Bringing
        (timed_reader network)
        (timed_write send)
        buffer
        ciph
        whole
        exact
        off
        (Below network Incoming)
        toy
        sc
        (42 ∷ [])
remote_conn-local_conn_example =
    remote_conn-local_conn buffer toy_crypto meta whole exact off off toy toy-IsAead network send
      no_net false [] Open network-Duplex turns [] idle joined salt [] ready ready ready 5 5 0
      (0 ∷ []) site (42 ∷ []) salt client answered (encode site) local_ran.0 byte_wrote.0
      ((42 ∷ []) ∷ []) (λ t. ok t) (to_string no_net (encode site)) (omega arith) (omega arith)
      ((tt, refl), (refl, refl)) (first_salt idle turns) (refl, refl) local_ran.1 byte_wrote.1
      byte_wrote.2 (tt, sym byte_wrote.3) sized new_salt refl
