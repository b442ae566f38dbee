-- ===== src/Server/Tunnel.antt =====
-- The two goroutines of m_server/socks_server.go that serve a connection, up to the call of `relay`:
-- in the local half (`ServeLocal`) and in the remote half (`ServeServer`).
pub mod Target
pub mod Joined
pub mod Relays
mod Runs
use miniproxygo.Common.{ℕ, Bool, Option, none, some, List, []}
use miniproxygo.Io.{Error, Result, ok, err, Read, Reader, Write, Writer}
use miniproxygo.Internal.Outcome.{Outcome, returns, panics, deadlocks, ◌>>=◌}
use miniproxygo.Internal.Filter.{Filter}
use miniproxygo.Internal.SaltFilter.{Floats, Env, Salts}
use miniproxygo.Shadow.Cipher.{Cipher}
use miniproxygo.Shadow.Conn.{StreamConn, new_conn, write_conn}
use miniproxygo.Shadow.Conn.Source.{conn_reader}
use miniproxygo.Socks.Addr.{Net, Parsed, read_addr, to_string}
use miniproxygo.Socks.HandShake.{hand_shake}

-- How the local goroutine ends: it reads on without use after a failed negotiation, it has no
-- connection to the remote half, the address does not go out, or it relays. `C` is the client's
-- connection, `D` the encrypted one.
pub data LocalEnd (C D : Type 0) : Type 0 where
  discards : Error → C → LocalEnd C D
  no_remote : Error → C → LocalEnd C D
  not_sent : Error → C → D → LocalEnd C D
  proxies : List ℕ → C → D → LocalEnd C D

-- How the remote goroutine ends: it reads on without use, does not reach the target, or relays
-- between the encrypted connection and the target's.
pub data RemoteEnd (D T : Type 0) : Type 0 where
  drains : Error → D → RemoteEnd D T
  no_target : Error → D → RemoteEnd D T
  connects : T → D → RemoteEnd D T

module _ {S Q R F : Type 0} (net : Reader S) (put : Writer S) (rand : Reader Q) (ciph : Cipher)
    (x : Floats R) (f : Filter R F) (env : Env) where
  -- `rc.Write(tgt)` and what follows it.
  abbrev pub sent_target :
      {C : Type 0} → List ℕ → C → Write (StreamConn S Q F) → LocalEnd C (StreamConn S Q F)
  sent_target tgt c y = elim y.err [ some e ↦ not_sent e c y.next | none ↦ proxies tgt c y.next ]

  module _ {C N : Type 0} (r : Reader C) (cput : Writer C) (names : Net) (udp_enabled : Bool)
      (local_addr : List ℕ) (cork : N → S) (dial : Result N) (random : Q) (salts : Salts F) where
    -- The connection to `RemoteServer`, `timedCork` around it (`cork`), `shadow` around that, and the
    -- target's address on it.
    abbrev pub dial_remote : List ℕ → C → Outcome (LocalEnd C (StreamConn S Q F))
    dial_remote tgt c = elim dial [
      | err e ↦ returns (no_remote e c)
      | ok rc ↦
          (write_conn net put rand ciph x f env tgt (new_conn (cork rc) random salts) >>= λ y.
          returns (sent_target tgt c y))
    ]

    -- `getAddr` has returned; any error is a failure, `InfoUDPAssociate` too.
    abbrev pub got_address :
        C → Result (List ℕ × Option Error) → Outcome (LocalEnd C (StreamConn S Q F))
    got_address c (err e) = returns (discards e c)
    got_address c (ok (tgt, some e)) = returns (discards e c)
    got_address c (ok (tgt, none)) = dial_remote tgt c

    -- The goroutine of `ServeLocal`, with `HandShake` for `getAddr`.
    unfoldable pub local_conn : C → Outcome (LocalEnd C (StreamConn S Q F))
    local_conn c = let y = hand_shake r cput names udp_enabled local_addr c in got_address y.1 y.0

  module _ {T : Type 0} (names : Net) (dial : List ℕ → Result T) where
    -- `net.Dial("tcp", tgt.String())`
    abbrev pub dial_target : Result T → StreamConn S Q F → RemoteEnd (StreamConn S Q F) T
    dial_target (err e) sc = no_target e sc
    dial_target (ok rc) sc = connects rc sc

    abbrev pub read_target :
        List ℕ → Option Error → StreamConn S Q F → RemoteEnd (StreamConn S Q F) T
    read_target tgt (some e) sc = drains e sc
    read_target tgt none sc = dial_target (dial (to_string names tgt)) sc

    -- The goroutine of `ServeServer` from `ReadAddr` on, on the encrypted connection.
    unfoldable pub remote_conn : StreamConn S Q F → RemoteEnd (StreamConn S Q F) T
    remote_conn sc =
        let y = read_addr (conn_reader net put rand ciph x f env) sc in
        read_target y.addr y.err y.next

    -- The goroutine of `ServeServer`: `timedCork` around what has been accepted (`cork`), and `shadow`
    -- around that.
    unfoldable pub serve_accepted :
        {N : Type 0} → (N → S) → Q → Salts F → N → RemoteEnd (StreamConn S Q F) T
    serve_accepted cork random salts c = remote_conn (new_conn (cork c) random salts)
