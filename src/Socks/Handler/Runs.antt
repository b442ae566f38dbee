-- ===== src/Socks/Handler/Runs.antt =====
-- Runs of m_socks/handler.go, and its theorems on concrete connections.
use miniproxygo.Common.{
  get_or, ℕ, ◌≡◌, ◌≤◌, ◌+◌, ◌⊎◌, refl, arith, false, none, List, [], ◌∷◌, ◌++◌,
}
use miniproxygo.Io.Network.{Conn, chunk, network, send, network-Duplex, Open}
use miniproxygo.Socks.Strconv.{itoa}
use miniproxygo.Socks.Addr.{Net}
use miniproxygo.Socks.Addr.Wire.{Address, domain}
use miniproxygo.Socks.HandShake.{method_reply, connect_reply}
use miniproxygo.Socks.HandShake.Replies.{greeting, request}
use miniproxygo.Io.{Error, Result, ok}
use miniproxygo.Internal.Outcome.{Outcome, returns}
use miniproxygo.Socks.Handler.{
  gave_up, target, Request, new_request, resolve, copy_once, Served, relays, serv, serve,
  connect_target,
}
use miniproxygo.Socks.Handler.Failing.{Heard, serve-ends}
use miniproxygo.Socks.Handler.Serving.{serve-relays, serve-Relaying}
use miniproxygo.Server.Relay.{
  Relay, relay_start, up_round, down_round, Step, Reach, here, later, up_goes_on, down_goes_on,
}
use miniproxygo.Server.Relay.Lossless.{Relaying}

-- The name `ab` and the port 443.
abbrev site : Address
site = domain (97 ∷ 98 ∷ []) 1 187

abbrev no_net : Net
no_net = record {
  split_host_port = λ t. none;
  join_host_port = λ h p. h ++ b':' ∷ p;
  parse_ip = λ t. none;
  to4 = λ ip. none;
  ip_string = λ ip. ip;
}

-- A client that sends its request in one piece.
abbrev whole_request : Conn
whole_request = record {
  incoming = chunk (request 5 1 0 site) ∷ [];
  outgoing = [];
  refusals = [];
  closed = false;
}

-- A client that sends its greeting and its request in one piece each, and a byte behind them.
abbrev whole_client : Conn
whole_client = record whole_request {
  incoming = chunk (greeting 5 (0 ∷ [])) ∷ chunk (request 5 1 0 site) ∷ chunk (42 ∷ []) ∷ [];
}

abbrev far : Conn
far = record whole_request { incoming = chunk (7 ∷ 8 ∷ []) ∷ [] }

abbrev dials : List ℕ → Result Conn
dials t = ok far

-- `Serv` over network connections.
abbrev served : Request Conn → Outcome (Served Conn Conn)
served = serve network send no_net network send dials

brings :
    ((network.read 1024 whole_client).got ≡ greeting 5 (0 ∷ []))
    × ((network.read 1024 (send method_reply (network.read 1024 whole_client).next).next).got
        ≡ request 5 1 0 site)
unfolding network send
brings = (refl, refl)

serve-relays_example :
    (q : Request Conn) × (served (new_request whole_client) ≡ returns (relays q far))
    × Open q.conn (42 ∷ []) (method_reply ++ connect_reply)
serve-relays_example =
    serve-relays network send no_net network send dials Open network-Duplex 5 1 0 (0 ∷ []) site
      (42 ∷ []) whole_client far (omega arith) (omega arith) ((tt, refl), (refl, refl)) brings.0
      brings.1 refl

abbrev answered : Request Conn
answered = record {
  conn = record whole_client {
    incoming = chunk (42 ∷ []) ∷ [];
    outgoing = method_reply ++ connect_reply;
  };
  version = 5;
  command = 0;
  host = 97 ∷ 98 ∷ [];
  port = itoa 443;
}

served_ran : served (new_request whole_client) ≡ returns (relays answered far)
unfolding serve serv resolve connect_target network send
served_ran = refl

abbrev start : Relay Conn Conn
start = relay_start answered.conn far

abbrev up : Relay Conn Conn → Relay Conn Conn
up = up_round (copy_once network send) (copy_once network send) 0 Error.crashed

abbrev down : Relay Conn Conn → Relay Conn Conn
down = down_round (copy_once network send) (copy_once network send) 0 Error.crashed

turns :
    Reach
      (copy_once network send)
      (copy_once network send)
      0
      Error.crashed
      start
      2
      (down (up start))
unfolding up_round
turns = later (later here (up_goes_on refl refl)) (down_goes_on refl refl)

serve-Relaying_example :
    Relaying Open Open 0 Error.crashed
      (42 ∷ [])
      (method_reply ++ connect_reply)
      (7 ∷ 8 ∷ [])
      []
      (down (up start))
    × (2 ≤ network.budget answered.conn + network.budget far + 2)
    × (((s' : Relay Conn Conn) × Step
            (copy_once network send)
            (copy_once network send)
            0
            Error.crashed
            (down (up start))
            s')
        ⊎ Open (down (up start)).left [] ((method_reply ++ connect_reply) ++ 7 ∷ 8 ∷ [])
          × Open (down (up start)).right [] (42 ∷ []))
serve-Relaying_example =
    serve-Relaying network send no_net network send dials Open network-Duplex Open network-Duplex 5
      1 0 (0 ∷ []) site (42 ∷ []) (7 ∷ 8 ∷ []) whole_client far far answered Error.crashed 2
      (down (up start)) (omega arith) (omega arith) ((tt, refl), (refl, refl)) brings.0 brings.1
      refl ((tt, refl), (refl, refl)) served_ran turns

serve-ends_example :
    (served (new_request whole_client) ≡ returns gave_up)
    ⊎ (q : Request Conn) × (t : Conn) × (served (new_request whole_client) ≡ returns (relays q t))
      × Heard network send no_net network send dials whole_client
      × (get_or (network.read 1024 whole_client).got 0 0 ≡ 5)
      × Heard network send no_net network send dials
          (send method_reply (network.read 1024 whole_client).next).next
      × (dials (target network send no_net q) ≡ ok t)
serve-ends_example = serve-ends network send no_net network send dials whole_client
