-- ===== src/Server/Relay/Runs.antt =====
-- A run of `relay` between two connections, and its theorems there.
use miniproxygo.Common.{◌+◌, ◌≤◌, ◌⊎◌, refl, Bool, false, [], ◌∷◌, ◌==◌}
use miniproxygo.Io.{Error}
use miniproxygo.Io.Network.{Conn, chunk, network, send, Open, network-Duplex}
use miniproxygo.Server.Relay.{
  Round, Relay, relay_start, up_round, down_round, down_expires, copy_round, Step, Reach, here,
  later, up_goes_on, down_goes_on, down_times_out,
}
use miniproxygo.Server.Relay.Plain.{copy_round-Copies}
use miniproxygo.Server.Relay.Lossless.{Relaying, Copies, Reach-Relaying}
use miniproxygo.Server.Relay.Ends.{Returned, relay-Returned}

abbrev near : Conn
near = record { incoming = chunk (1 ∷ 2 ∷ []) ∷ []; outgoing = []; refusals = []; closed = false }

-- It answers, and stays open.
abbrev far : Conn
far = record {
  incoming = chunk (7 ∷ []) ∷ chunk (8 ∷ []) ∷ [];
  outgoing = 0 ∷ [];
  refusals = [];
  closed = false;
}

abbrev timed_out : Error
timed_out = Error.network 110

abbrev is_timed_out : Error → Bool
is_timed_out (Error.network n) = n == 110
is_timed_out _ = false

abbrev copy : Conn → Conn → Round Conn Conn
copy = copy_round network send

copies : Copies copy network.budget network.budget Open Open
copies = copy_round-Copies network send network send Open Open network-Duplex network-Duplex

abbrev up : Relay Conn Conn → Relay Conn Conn
up = up_round copy copy 60 timed_out

abbrev down : Relay Conn Conn → Relay Conn Conn
down = down_round copy copy 60 timed_out

abbrev expire : Relay Conn Conn → Relay Conn Conn
expire = down_expires copy copy 60 timed_out

abbrev finish : Relay Conn Conn
finish = expire (up (down (up (relay_start near far))))

-- The first copy ends, and the other one times out with a byte left.
ran : Reach copy copy 60 timed_out (relay_start near far) 4 finish
unfolding up_round down_round copy_round network send
ran =
    later
      (later (later (later here (up_goes_on refl refl)) (down_goes_on refl refl))
        (up_goes_on refl refl))
      (down_times_out refl refl refl)

Reach-Relaying_example :
    Relaying Open Open 60 timed_out (1 ∷ 2 ∷ []) [] (7 ∷ 8 ∷ []) (0 ∷ []) finish
Reach-Relaying_example =
    Reach-Relaying copy copy network.budget network.budget Open Open copies copies 60 timed_out
      (1 ∷ 2 ∷ []) [] (7 ∷ 8 ∷ []) (0 ∷ []) near far ((tt, refl), (refl, refl))
      ((tt, refl), (refl, refl)) ran

relay-Returned_example :
    (4 ≤ network.budget near + network.budget far + 2)
    × (((t : Relay Conn Conn) × Step copy copy 60 timed_out finish t)
        ⊎ Returned copy copy network.budget network.budget Open Open copies copies 60 timed_out
            (1 ∷ 2 ∷ [])
            []
            (7 ∷ 8 ∷ [])
            (0 ∷ [])
            is_timed_out
            finish)
relay-Returned_example =
    relay-Returned copy copy network.budget network.budget Open Open copies copies 60 timed_out
      (1 ∷ 2 ∷ []) [] (7 ∷ 8 ∷ []) (0 ∷ []) is_timed_out near far 4 finish refl
      ((tt, refl), (refl, refl)) ((tt, refl), (refl, refl)) ran
