-- ===== src/Socks/Handler.antt =====
-- m_socks/handler.go: an older server of the protocol, which takes each message from one `Read`.
pub mod Target
pub mod Relay
pub mod Serving
pub mod Failing
mod Runs
use miniproxygo.Common.{
  ℕ, zero, suc, ◌+◌, ◌-◌, ◌*◌, Bool, true, false, Option, none, some, List, [], ◌∷◌, ◌++◌, length,
  replicate, get_or, slice, if◌then◌else◌, ltb, ◌==◌,
}
use miniproxygo.Io.{Error, Result, ok, err, Read, Reader, Write, Writer, is_nil}
use miniproxygo.Internal.Outcome.{Outcome, returns, panics, deadlocks, ◌>>=◌}
use miniproxygo.Socks.Strconv.{itoa}
use miniproxygo.Socks.Addr.{Net}
use miniproxygo.Server.Relay.{copying, ended, Round}

-- `request`; `command` is one of `CONNECT` (0), `BIND` (1) and `UDPASSOCIATE` (2).
pub record Request (C : Type 0) : Type 0 where
  pub conn : C
  pub version : ℕ
  pub command : ℕ
  pub host : List ℕ
  pub port : List ℕ

-- `NewRequest`
abbrev pub new_request : {C : Type 0} → C → Request C
new_request c = record { conn = c; version = 0; command = 0; host = []; port = [] }

-- `STATUS_VERIFY` and `STATUS_CONNECT`
pub data Status : Type 0 where
  verify connect : Status

-- The `switch b[1]`; another byte leaves the command as it was.
abbrev pub command_of : ℕ → ℕ → ℕ
command_of byte old = if byte == 1 then 0 else if byte == 2 then 1 else if byte == 3 then 2 else old

module _ {C : Type 0} (r : Reader C) (put : Writer C) (names : Net) where
  -- The `switch b[3]`; `b[5:n-2]` panics for a message that is too short.
  abbrev pub host_of : List ℕ → ℕ → List ℕ → Outcome (List ℕ)
  host_of b n old =
      if get_or b 3 0 == 1
      then returns (names.ip_string (slice 4 8 b))
      else if get_or b 3 0 == 3
      then (if ltb n 7 then panics else returns (slice 5 (n - 2) b))
      else if get_or b 3 0 == 4
      then returns (names.ip_string (slice 4 20 b))
      else returns old

  abbrev pub resolve_as : Status → List ℕ → ℕ → Request C → Outcome (Request C)
  resolve_as verify b n q = if get_or b 0 0 == 5 then returns (record q { version = 5 }) else panics
  resolve_as connect b n q = host_of b n q.host >>= λ host. returns (record q {
    command = command_of (get_or b 1 0) q.command;
    host = host;
    port = itoa (get_or b (n - 2) 0 * 256 + get_or b (n - 1) 0);
  })

  -- `Resolve`: one `Read` into 1024 bytes, of which what it does not fill is 0. `logger.Panic` panics.
  unfoldable pub resolve : Status → Request C → Outcome (Request C)
  resolve status q =
      let x = r.read 1024 q.conn in
      let n = length x.got in
      if is_nil x.err
      then if ltb n 3
        then panics
        else resolve_as status (x.got ++ replicate (1024 - n) 0) n (record q { conn = x.next })
      else panics

  -- `ResponseVerify` and `ResponseConnect`; what `Write` returns is not looked at.
  abbrev pub response_verify : Request C → Request C
  response_verify q =
      if q.version == 5 then record q { conn = (put (5 ∷ 0 ∷ []) q.conn).next } else q

  abbrev pub response_connect : Request C → Request C
  response_connect q = record q {
    conn = (put (5 ∷ 0 ∷ 0 ∷ 1 ∷ 0 ∷ 0 ∷ 0 ∷ 0 ∷ 0 ∷ 0 ∷ []) q.conn).next;
  }

  -- The target of `connect`: the text that is dialled.
  abbrev pub target : Request C → List ℕ
  target q = names.join_host_port q.host q.port

  -- `Serv` up to `connect`: `Resolve` returns true whenever it returns.
  unfoldable pub serv : Request C → Outcome (Request C)
  serv q = do
    q1 ← resolve verify q
    q2 ← resolve connect (response_verify q1)
    returns (response_connect q2)

-- A round of the loop of one goroutine of `Relay`, with `read`: 50 bytes at most, none if there is an
-- error. Every error ends the loop, and none of them is reported.
unfoldable pub copy_once : {S T : Type 0} → Reader S → Writer T → S → T → Round S T
copy_once r put s t =
    let x = r.read 50 s in
    let y = put x.got t in
    if is_nil x.err
    then if length x.got == 0
      then record { side = copying; source = x.next; sink = t }
      else record {
        side = if is_nil y.err then copying else ended none;
        source = x.next;
        sink = y.next;
      }
    else record { side = ended none; source = x.next; sink = t }

-- How `Serv` ends before its deferred calls close the connections: it has recovered from a panic, or
-- relays between the client and the target.
pub data Served (C T : Type 0) : Type 0 where
  gave_up : Served C T
  relays : Request C → T → Served C T

-- `defer func() { recover() ... }()`
abbrev pub recovered : {C T : Type 0} → Outcome (Served C T) → Outcome (Served C T)
recovered (returns y) = returns y
recovered panics = returns gave_up
recovered deadlocks = deadlocks

module _ {C T : Type 0} (r : Reader C) (put : Writer C) (names : Net) (rt : Reader T)
    (put_t : Writer T) (dial : List ℕ → Result T) where
  -- The first goroutine of `Relay`, from the target to the client, and the second.
  abbrev pub to_local : T → C → Round T C
  to_local = copy_once rt put

  abbrev pub to_remote : C → T → Round C T
  to_remote = copy_once r put_t

  -- `connect`: a dial that fails panics.
  abbrev pub dialled : Request C → Result T → Outcome (Served C T)
  dialled q (err e) = panics
  dialled q (ok t) = returns (relays q t)

  unfoldable pub connect_target : Request C → Outcome (Served C T)
  connect_target q = dialled q (dial (target r put names q))

  -- `Serv`
  unfoldable pub serve : Request C → Outcome (Served C T)
  serve q = recovered (serv r put names q >>= connect_target)
