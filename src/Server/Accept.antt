-- ===== src/Server/Accept.antt =====
-- The loop of `ServeLocal` in m_server/socks_server.go over what `Accept` returns, and the pauses that
-- it makes. The pauses at a retry are in milliseconds; the one before the return is a `time.Duration`,
-- an int64 of nanoseconds.
pub mod Pauses
use miniproxygo.Common.{
  ℕ, zero, suc, ◌+◌, ◌*◌, Bool, true, false, ◌&&◌, Option, none, some, List, [], ◌∷◌, ◌++◌,
  if◌then◌else◌, ltb, ◌==◌,
}
use miniproxygo.Common.{ℤ, int64, times}

-- `delayCalc`
unfoldable pub delay_calc : ℕ → ℕ
delay_calc delay =
    let next = if delay == 0 then 5 else delay * 2 in if ltb 1000 next then 1000 else next

-- What one `Accept` returns: a connection, or an error, with what its methods `Timeout` and
-- `Temporary` say where it is a `net.Error`.
pub data Accepted : Type 0 where
  conn : Accepted
  failed : ℕ → Option (Bool × Bool) → Accepted

-- `isTimeout`
abbrev pub is_timeout : Option (Bool × Bool) → Bool
is_timeout none = false
is_timeout (some (timeout, temporary)) = timeout

abbrev pub is_temporary : Option (Bool × Bool) → Bool
is_temporary none = false
is_temporary (some (timeout, temporary)) = temporary

-- What the loop has done: the number `ReqNum`, the pauses at its retries, the last one first, the
-- argument of the last `time.Sleep`, the one before the return, if there was one, the error that it has
-- returned (or `none` while it waits for the next `Accept`), and `tempDelay`.
pub record Loop : Type 0 where
  pub req_num : ℕ
  pub slept : List ℕ
  pub before_return : Option ℤ
  pub returned : Option ℕ
  pub temp_delay : ℕ

abbrev pub unless_returned : Option ℕ → Loop → Loop → Loop
unless_returned (some e) l next = l
unless_returned none l next = next

-- `CheckGracefulShutdown`: the channel has been closed.
module _ (shutting_down : Bool) (shutdown_timeout : ℤ) where
  -- `time.Duration(shutdownTimeout) * time.Second`; `time.Sleep` returns at once where that is not
  -- positive.
  abbrev pub last_pause : Option ℤ
  last_pause = if shutting_down then some (int64 (times shutdown_timeout 1000000000)) else none

  -- The branch of an error that is no timeout.
  abbrev pub fail_or_retry : ℕ → Bool → Loop → Loop
  fail_or_retry e true l =
      let d = delay_calc (l.temp_delay) in record l { temp_delay = d; slept = d ∷ l.slept }
  fail_or_retry e false l = record l { returned = some e; before_return = last_pause }

  -- One round of the loop.
  unfoldable pub round : Accepted → Loop → Loop
  round conn l = record l { req_num = l.req_num + 1 }
  round (failed e kind) l = if is_timeout kind then l else fail_or_retry e (is_temporary kind) l

  -- The loop; behind a `return` nothing is accepted any more.
  unfoldable pub serve_local : List Accepted → Loop → Loop
  serve_local [] l = l
  serve_local (x ∷ xs) l =
      let next = serve_local xs (round x l) in unless_returned l.returned l next

abbrev pub loop_start : Loop
loop_start = record {
  req_num = 0;
  slept = [];
  before_return = none;
  returned = none;
  temp_delay = 0;
}
