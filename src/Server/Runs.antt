-- ===== src/Server/Runs.antt =====
-- Runs of m_server, and its theorems at concrete inputs.
use miniproxygo.Common.{ℕ, ◌≤◌, ◌*◌, ◌≡◌, refl, true, false, none, some, [], ◌∷◌}
use miniproxygo.Common.{pos, negsuc, int64}
use miniproxygo.Io.Network.{Conn, network, send, Outgoing, send-Sends, Duplex, Open, network-Duplex}
use miniproxygo.Server.Cork.{timed_cork, cork_run, corked_write, buffered_write, written, timer}
use miniproxygo.Server.Cork.Order.{Delivering, cork_run-Delivering, timed_cork-Delivering}
use miniproxygo.Server.Cork.Timed.{timed_reader, timed_write}
use miniproxygo.Server.Cork.Contract.{Corked, timed-Duplex}
use miniproxygo.Server.Accept.{conn, failed, serve_local, round, loop_start}
use miniproxygo.Server.Accept.Pauses.{Waiting, serve_local-Waiting, serve_local_returns}

abbrev idle : Conn
idle = record { incoming = []; outgoing = []; refusals = []; closed = false }

cork_run-Delivering_example :
    let y =
      cork_run send
        (written (1 ∷ []) ∷ written (2 ∷ []) ∷ timer ∷ written (3 ∷ []) ∷ [])
        (timed_cork idle) in
    (y.0 ≡ (1, none) ∷ (1, none) ∷ (1, none) ∷ [])
    × Delivering send Outgoing send-Sends (1 ∷ 2 ∷ 3 ∷ []) y.1
cork_run-Delivering_example =
    cork_run-Delivering send Outgoing send-Sends
      (written (1 ∷ []) ∷ written (2 ∷ []) ∷ timer ∷ written (3 ∷ []) ∷ []) [] (timed_cork idle)
      (timed_cork-Delivering send Outgoing send-Sends idle (refl, refl))

-- Nothing goes out before the timer's end.
gathered :
    (cork_run send (written (1 ∷ []) ∷ written (2 ∷ []) ∷ []) (timed_cork idle)).1.bufw.wr.outgoing
    ≡ []
unfolding cork_run corked_write buffered_write
gathered = refl

timed-Duplex_example :
    Duplex (timed_reader network) (timed_write send) (Corked network send Open network-Duplex)
timed-Duplex_example = timed-Duplex network send Open network-Duplex

serve_local-Waiting_example : Waiting 1 2 (
    serve_local false
      (pos 10)
      (failed 4 (some (false, true)) ∷ conn ∷ failed 4 (some (false, true)) ∷ [])
      loop_start)
serve_local-Waiting_example =
    serve_local-Waiting false (pos 10)
      (failed 4 (some (false, true)) ∷ conn ∷ failed 4 (some (false, true)) ∷ []) 0 0 loop_start
      ((λ h. refl), (tt, ((λ h. refl), tt)))
      (record { not_returned = refl; counted = refl; slept = refl; delay = refl })

serve_local_returns_example :
    let l = serve_local true (pos 10) (conn ∷ failed 7 none ∷ conn ∷ []) loop_start in
    (l.returned ≡ some 7)
    × (l.req_num ≡ 1)
    × (l.slept ≡ [])
    × (l.before_return ≡ some (int64 (pos 10000000000)))
    × ((n : ℕ)
        → true ≡ true
        → pos 10 ≡ pos n
        → n ≤ 9223372036
        → l.before_return ≡ some (pos (n * 1000000000)))
serve_local_returns_example =
    serve_local_returns true (pos 10) (conn ∷ []) (conn ∷ []) 7 none (tt, tt) refl refl

-- A timeout of 9223372037 seconds wraps around: the argument is negative, and there is no pause.
wrapped :
    (serve_local true (pos 9223372037) (failed 7 none ∷ []) loop_start).before_return
    ≡ some (negsuc 9223372036709551615)
unfolding serve_local round int64
wrapped = refl
