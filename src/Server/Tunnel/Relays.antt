-- ===== src/Server/Tunnel/Relays.antt =====
-- The goroutines of m_server/socks_server.go that serve a connection, from their start through `relay`:
-- over the encrypted connection on one side and a plain one on the other.
pub mod Local
pub mod Remote
mod Runs
use miniproxygo.Common.{
  ℕ, ◌+◌, ◌≤◌, ◌<◌, ◌≡◌, refl, sym, ap, ap₂, ◌∙◌, subst, ◌⊎◌, inr, Bool, true, Option, none, some,
  List, [], ◌++◌, length, arith,
}
use miniproxygo.Io.{Error, Result, ok, Reader, Write, Writer}
use miniproxygo.Io.Network.{Duplex}
use miniproxygo.Internal.Outcome.{Outcome, returns, ◌>>=◌}
use miniproxygo.Internal.Filter.{Filter}
use miniproxygo.Internal.SaltFilter.{Floats, Env, Salts}
use miniproxygo.Shadow.Aead.{Aead, IsAead}
use miniproxygo.Shadow.Cipher.{Cipher}
use miniproxygo.Shadow.Conn.{StreamConn, new_conn, conn_budget}
use miniproxygo.Shadow.Conn.Source.{conn_reader}
use miniproxygo.Shadow.Conn.Both.{Both}
use miniproxygo.Shadow.Conn.Both.Begin.{
  Starting, Expecting, Expecting-Delivers, Expecting-Both, Leading, Leading-Both,
}
use miniproxygo.Socks.Addr.{Net, read_addr, to_string}
use miniproxygo.Socks.Addr.Wire.{Address, domain, ipv4, ipv6, encode, IsAddress}
use miniproxygo.Socks.Addr.Reading.{read_addr-encode}
use miniproxygo.Socks.HandShake.{hand_shake, connect_reply, method_reply}
use miniproxygo.Socks.HandShake.Replies.{hand_shake-Answered, greeting, request}
use miniproxygo.Server.Relay.{Relay, relay_start, Step, Reach}
use miniproxygo.Server.Relay.Lossless.{Relaying, Reach-Relaying}
use miniproxygo.Server.Relay.Ends.{Returned, relay-Returned}
use miniproxygo.Server.Relay.Encrypted.{write_to_round, read_from_round}
use miniproxygo.Server.Relay.Encrypted.Out.{write_to_round-Copies}
use miniproxygo.Server.Relay.Encrypted.In.{read_from_round-Copies}
use miniproxygo.Server.Tunnel.{
  LocalEnd, RemoteEnd, proxies, connects, local_conn, got_address, sent_target, remote_conn,
  read_target, dial_target,
}

module _ {S Q R F C : Type 0} (net : Reader S) (put : Writer S) (rand : Reader Q) (ciph : Cipher)
    (x : Floats R) (f : Filter R F) (env : Env) (Live : S → List ℕ → List ℕ → Type 0)
    (DS : Duplex net put Live) (a : Aead) (laws : IsAead a) (a' : Aead) (laws' : IsAead a')
    (salt : List ℕ) (r : Reader C) (cput : Writer C) (LiveC : C → List ℕ → List ℕ → Type 0)
    (DC : Duplex r cput LiveC) (read_timeout : ℕ) (dl : Error) where
  -- `relay` between an encrypted connection, on the left, and a plain one: what can be reached, and how
  -- it ends.
  pub record Relayed (is_deadline : Error → Bool) (bl ol br or : List ℕ) (limit n : ℕ)
      (s : Relay (StreamConn S Q F) C) : Type 0 where
    pub relaying :
        Relaying (Both net put rand ciph x f env Live a a' salt) LiveC read_timeout dl bl ol br or s
    pub in_time : n ≤ limit
    pub goes_on_or_ends :
        ((t : Relay (StreamConn S Q F) C) × Step
            (write_to_round net put rand ciph x f env cput)
            (read_from_round net put rand ciph x f env r)
            read_timeout
            dl
            s
            t)
        ⊎ Returned
            (write_to_round net put rand ciph x f env cput)
            (read_from_round net put rand ciph x f env r)
            (conn_budget net)
            r.budget
            (Both net put rand ciph x f env Live a a' salt)
            LiveC
            (write_to_round-Copies net put rand ciph x f env Live DS a laws a' laws' salt r cput
              LiveC DC)
            (read_from_round-Copies net put rand ciph x f env Live DS a laws a' laws' salt r cput
              LiveC DC)
            read_timeout
            dl
            bl
            ol
            br
            or
            is_deadline
            s

  pub Reach-Relayed :
      (is_deadline : Error → Bool) (bl ol br or : List ℕ) (sc : StreamConn S Q F) (c : C) (n : ℕ)
      (s : Relay (StreamConn S Q F) C)
      → is_deadline dl ≡ true
      → Both net put rand ciph x f env Live a a' salt sc bl ol
      → LiveC c br or
      → Reach
          (write_to_round net put rand ciph x f env cput)
          (read_from_round net put rand ciph x f env r)
          read_timeout
          dl
          (relay_start sc c)
          n
          s
      → Relayed is_deadline bl ol br or (conn_budget net sc + r.budget c + 2) n s
  Reach-Relayed is_deadline bl ol br or sc c n s d both live reached =
      let up = write_to_round net put rand ciph x f env cput in
      let down = read_from_round net put rand ciph x f env r in
      let B = Both net put rand ciph x f env Live a a' salt in
      let CU =
        write_to_round-Copies net put rand ciph x f env Live DS a laws a' laws' salt r cput LiveC
          DC in
      let CD =
        read_from_round-Copies net put rand ciph x f env Live DS a laws a' laws' salt r cput LiveC
          DC in
      let ends =
        relay-Returned up down (conn_budget net) r.budget B LiveC CU CD read_timeout dl bl ol br or
          is_deadline sc c n s d both live reached in
      record {
        relaying =
            Reach-Relaying up down (conn_budget net) r.budget B LiveC CU CD read_timeout dl bl ol br
              or sc c both live reached;
        in_time = ends.0;
        goes_on_or_ends = ends.1;
      }
