-- ===== src/Server/Cork.antt =====
-- `corkedConn` of m_server/socks_server.go: for its first milliseconds a connection gathers what is
-- written in a buffer. Go's `bufio.Writer` is modelled as far as it is used.
pub mod Order
pub mod Timed
pub mod Contract
use miniproxygo.Common.{
  ℕ, zero, suc, ◌+◌, ◌-◌, Bool, true, false, ◌&&◌, Option, none, some, List, [], ◌∷◌, ◌++◌, length,
  take, drop, if◌then◌else◌, ltb, ◌==◌,
}
use miniproxygo.Io.{Error, Write, Writer, is_nil}

-- `bufio.Writer`: what it holds back, its sticky error, and the writer below it.
pub record Buffered (T : Type 0) : Type 0 where
  pub held : List ℕ
  pub err : Option Error
  pub wr : T

-- The buffer's size, the last argument of `timedCork`.
abbrev pub buf_size : ℕ
buf_size = 1280

module _ {T : Type 0} (put : Writer T) where
  -- A write that took too little and reported no error.
  abbrev pub short_err : ℕ → ℕ → Option Error → Option Error
  short_err n want none = if ltb n want then some Error.short_write else none
  short_err n want (some e) = some e

  -- `Flush`
  unfoldable pub flush : Buffered T → Buffered T
  flush b =
      let y = put b.held b.wr in
      if is_nil b.err && ltb 0 (length b.held)
      then record {
        held = if is_nil (short_err y.count (length b.held) y.err) then [] else drop y.count b.held;
        err = short_err y.count (length b.held) y.err;
        wr = y.next;
      }
      else b

  -- `Write`: what does not fit goes out, by the buffer or past it when it is empty. The number is of
  -- the bytes of `p` that were taken.
  unfoldable pub buffered_write : ℕ → ℕ → List ℕ → Buffered T → Write (Buffered T)
  buffered_write zero nn p b = record { count = nn; err = some Error.diverged; next = b }
  buffered_write (suc fuel) nn p b =
      let room = buf_size - length b.held in
      let y = put p b.wr in
      let past =
        buffered_write fuel (nn + y.count) (drop y.count p)
          (record b { err = y.err; wr = y.next }) in
      let fill =
        buffered_write fuel (nn + room) (drop room p)
          (flush (record b { held = b.held ++ take room p })) in
      if ltb room (length p) && is_nil b.err
      then if length b.held == 0 then past else fill
      else if is_nil b.err
      then record { count = nn + length p; err = none; next = record b { held = b.held ++ p } }
      else record { count = nn; err = b.err; next = b }

-- `corkedConn`: the embedded connection is the one below the buffer. The mutex makes `Write` and the
-- timer's function single steps.
pub record CorkedConn (T : Type 0) : Type 0 where
  pub bufw : Buffered T
  pub corked : Bool
  pub err : Option Error
  pub timer_set : Bool

-- `timedCork`
abbrev pub timed_cork : {T : Type 0} → T → CorkedConn T
timed_cork t = record {
  bufw = record { held = []; err = none; wr = t };
  corked = true;
  err = none;
  timer_set = false;
}

module _ {T : Type 0} (put : Writer T) where
  abbrev pub plain_write : List ℕ → CorkedConn T → Write (CorkedConn T)
  plain_write p w =
      let y = put p w.bufw.wr in
      record {
        count = y.count;
        err = y.err;
        next = record w { bufw = record (w.bufw) { wr = y.next } };
      }

  abbrev pub cork_write : List ℕ → CorkedConn T → Write (CorkedConn T)
  cork_write p w =
      let y = buffered_write put (2 + length p) 0 p w.bufw in
      record { count = y.count; err = y.err; next = record w { bufw = y.next; timer_set = true } }

  abbrev pub failed_write : Error → CorkedConn T → Write (CorkedConn T)
  failed_write e w = record { count = 0; err = some e; next = w }

  -- `Write`
  unfoldable pub corked_write : Writer (CorkedConn T)
  corked_write p w = elim w.err [
    | some e ↦ failed_write e w
    | none ↦ if w.corked then cork_write p w else plain_write p w
  ]

  -- The function of `time.AfterFunc`.
  unfoldable pub uncork : CorkedConn T → CorkedConn T
  uncork w = let b = flush put w.bufw in record w { corked = false; bufw = b; err = b.err }

-- What can happen to a corked connection: a call of `Write`, and once the timer is set, its end.
pub data Event : Type 0 where
  written : List ℕ → Event
  timer : Event

module _ {T : Type 0} (put : Writer T) where
  -- The timer fires once, if it has been set.
  unfoldable pub timer_end : CorkedConn T → CorkedConn T
  timer_end w = if w.timer_set && w.corked then uncork put w else w

  -- The steps in the order in which they take the mutex: what the calls of `Write` return, in order, and
  -- the connection at the end.
  unfoldable pub cork_run : List Event → CorkedConn T → List (ℕ × Option Error) × CorkedConn T
  cork_run [] w = ([], w)
  cork_run (written p ∷ es) w =
      let y = corked_write put p w in
      let rest = cork_run es y.next in ((y.count, y.err) ∷ rest.0, rest.1)
  cork_run (timer ∷ es) w = cork_run es (timer_end w)
