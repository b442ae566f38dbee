-- ===== src/Socks/Runs.antt =====
-- Runs of m_socks/socks5.go on concrete messages, the instances of its theorems.
use miniproxygo.Common.{ℕ, All, IsByte, ◌≡◌, refl, arith, false, none, List, [], ◌∷◌, ◌++◌}
use miniproxygo.Io.Network.{
  Conn, Event, chunk, network, send, Incoming, network-Delivers, network-Duplex, Open,
}
use miniproxygo.Socks.Strconv.{itoa, digits}
use miniproxygo.Socks.Addr.{Net, split_addr, read_addr}
use miniproxygo.Socks.Addr.Wire.{Address, domain, encode}
use miniproxygo.Socks.Addr.Split.{split_addr-encode, split_addr_sound, Cut}
use miniproxygo.Socks.Addr.Agreement.{Agrees, read_addr-split_addr}
use miniproxygo.Socks.HandShake.{hand_shake}
use miniproxygo.Socks.HandShake.Replies.{hand_shake-Answered, Answered, greeting, request}

-- The name `ab` and the port 443.
abbrev site : Address
site = domain (97 ∷ 98 ∷ []) 1 187

abbrev no_net : Net
no_net = record {
  split_host_port = λ t. none;
  join_host_port = λ h p. h ++ b':' ∷ p;
  parse_ip = λ t. none;
  to4 = λ ip. none;
  ip_string = λ ip. ip;
}

-- A client that speaks one byte at a time.
abbrev bytewise : List ℕ → List Event
bytewise [] = []
bytewise (b ∷ bs) = chunk (b ∷ []) ∷ bytewise bs

abbrev conn_of : List ℕ → Conn
conn_of bs = record { incoming = bytewise bs; outgoing = []; refusals = []; closed = false }

-- The port, two methods offered, CONNECT to the site, and one byte of the client's own data.
abbrev client : Conn
client = conn_of (greeting 5 (0 ∷ 2 ∷ []) ++ (request 5 1 0 site ++ 42 ∷ []))

port_text : itoa 8080 ≡ b'8' ∷ b'0' ∷ b'8' ∷ b'0' ∷ []
unfolding itoa digits
port_text = refl

message-IsByte : All IsByte (encode site ++ 42 ∷ [])
message-IsByte = (
  omega arith,
  (omega arith, (omega arith, (omega arith, (omega arith, (omega arith, (omega arith, tt)))))),
)

split_addr_sound_example : Cut (encode site ++ 42 ∷ []) (encode site)
split_addr_sound_example =
    split_addr_sound (encode site ++ 42 ∷ []) (encode site) message-IsByte
      (split_addr-encode site (42 ∷ []) (omega arith))

hand_shake-Answered_example :
    Answered Open false [] 1 site (42 ∷ []) [] (hand_shake network send no_net false [] client)
hand_shake-Answered_example =
    hand_shake-Answered network send no_net false [] Open network-Duplex 5 5 1 0 (0 ∷ 2 ∷ []) site
      (42 ∷ []) [] client (omega arith) (omega arith) ((tt, refl), (refl, refl))

-- An address that is cut short.
read_addr-split_addr_example :
    Agrees Incoming
      (1 ∷ 10 ∷ 0 ∷ [])
      (split_addr (1 ∷ 10 ∷ 0 ∷ []))
      (read_addr network (conn_of (1 ∷ 10 ∷ 0 ∷ [])))
read_addr-split_addr_example =
    read_addr-split_addr network Incoming network-Delivers (1 ∷ 10 ∷ 0 ∷ [])
      (conn_of (1 ∷ 10 ∷ 0 ∷ [])) (omega arith, (omega arith, (omega arith, tt))) (tt, refl)
