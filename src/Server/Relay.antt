-- ===== src/Server/Relay.antt =====
-- `relay` of m_server/socks_server.go: two goroutines, each of which copies from one connection to the
-- other and then lets the other one's read time out. How `io.Copy` copies depends on the methods of the
-- two ends: here is its loop over `Read` and `Write`, and Encrypted has those of `streamConn`, which
-- `io.Copy` calls instead where one of the ends is encrypted.
pub mod Sides
pub mod Lossless
pub mod Ends
pub mod Plain
pub mod Whole
pub mod Encrypted
mod Runs
use miniproxygo.Common.{
  ℕ, zero, suc, ◌*◌, ◌≡◌, Bool, true, false, ◌&&◌, Option, none, some, List, [], ◌∷◌, length,
  if◌then◌else◌, ltb, ◌==◌,
}
use miniproxygo.Io.{Error, Reader, Writer, is_nil}
use miniproxygo.Shadow.Writer.{forget_eof}

-- The size of the buffer that `io.Copy` makes.
abbrev pub copy_size : ℕ
copy_size = 32 * 1024

-- A goroutine's copy: it goes on, or has ended with what `io.Copy` returns.
pub data Side : Type 0 where
  copying : Side
  ended : Option Error → Side

-- One round of the loop of `io.Copy`: the goroutine behind it, the source and the destination.
pub record Round (S T : Type 0) : Type 0 where
  pub side : Side
  pub source : S
  pub sink : T

-- A write that took too little and reported no error.
abbrev pub write_err : ℕ → ℕ → Option Error → Option Error
write_err took want none = if took == want then none else some Error.short_write
write_err took want (some e) = some e

-- What ends the loop behind the write: an error of the read, the end of the input being none.
abbrev pub after_read : Option Error → Side
after_read none = copying
after_read (some e) = ended (forget_eof (some e))

unfoldable pub copy_round : {S T : Type 0} → Reader S → Writer T → S → T → Round S T
copy_round r put s t =
    let x = r.read copy_size s in
    let y = put x.got t in
    let failed = write_err y.count (length x.got) y.err in
    if ltb 0 (length x.got)
    then if is_nil failed
      then record { side = after_read x.err; source = x.next; sink = y.next }
      else record { side = ended failed; source = x.next; sink = y.next }
    else record { side = after_read x.err; source = x.next; sink = t }

-- `io.Copy` by rounds, `n` at most: where it has not ended by then it is still copying.
unfoldable pub copy_all : {S T : Type 0} → (S → T → Round S T) → ℕ → S → T → Round S T
copy_all copy zero s t = record { side = copying; source = s; sink = t }
copy_all copy (suc n) s t =
    let y = copy s t in
    let more = copy_all copy n y.source y.sink in elim y.side [ copying ↦ more | ended e ↦ y ]

-- `up` copies from `left` to `right` and has the variable `err1`; `down` is the calling goroutine, with
-- `err`. A deadline on a connection is what `SetReadDeadline` sets.
pub record Relay (L R : Type 0) : Type 0 where
  pub left : L
  pub right : R
  pub up : Side
  pub down : Side
  pub left_deadline : Bool
  pub right_deadline : Bool

abbrev pub relay_start : {L R : Type 0} → L → R → Relay L R
relay_start l r = record {
  left = l;
  right = r;
  up = copying;
  down = copying;
  left_deadline = false;
  right_deadline = false;
}

-- A deadline is set behind a copy that has ended, if there is a read timeout.
abbrev pub deadline_behind : ℕ → Side → Bool → Bool
deadline_behind read_timeout copying old = old
deadline_behind read_timeout (ended e) old = if ltb 0 read_timeout then true else old

-- `copy_up` and `copy_down` are a round of `io.Copy(right, left)` and of `io.Copy(left, right)`.
module _ {L R : Type 0} (copy_up : L → R → Round L R) (copy_down : R → L → Round R L)
    (read_timeout : ℕ) (deadline_exceeded : Error) where
  -- A round of `io.Copy(right, left)`, and what follows it.
  unfoldable pub up_round : Relay L R → Relay L R
  up_round s =
      let x = copy_up s.left s.right in
      record s {
        left = x.source;
        right = x.sink;
        up = x.side;
        right_deadline = deadline_behind read_timeout x.side s.right_deadline;
      }

  -- A round of `io.Copy(left, right)`, and what follows it.
  unfoldable pub down_round : Relay L R → Relay L R
  down_round s =
      let x = copy_down s.right s.left in
      record s {
        left = x.sink;
        right = x.source;
        down = x.side;
        left_deadline = deadline_behind read_timeout x.side s.left_deadline;
      }

  -- A read that waits behind its deadline fails.
  unfoldable pub up_expires : Relay L R → Relay L R
  up_expires s = record s {
    up = ended (some deadline_exceeded);
    right_deadline = deadline_behind read_timeout (ended none) s.right_deadline;
  }

  unfoldable pub down_expires : Relay L R → Relay L R
  down_expires s = record s {
    down = ended (some deadline_exceeded);
    left_deadline = deadline_behind read_timeout (ended none) s.left_deadline;
  }

  -- What either goroutine can do next. The rounds take turns in any way.
  pub data Step (s t : Relay L R) : Type 0 where
    up_goes_on : s.up ≡ copying → t ≡ up_round s → Step s t
    down_goes_on : s.down ≡ copying → t ≡ down_round s → Step s t
    up_times_out : s.up ≡ copying → s.left_deadline ≡ true → t ≡ up_expires s → Step s t
    down_times_out : s.down ≡ copying → s.right_deadline ≡ true → t ≡ down_expires s → Step s t

  -- The states that `n` steps lead to.
  pub data Reach (s : Relay L R) : ℕ → Relay L R → Type 0 where
    here : Reach s zero s
    later : {n : ℕ} {t u : Relay L R} → Reach s n t → Step t u → Reach s (suc n) u

-- `errors.Is(e, os.ErrDeadlineExceeded)`
module _ (is_deadline : Error → Bool) where
  abbrev pub is_failure : Option Error → Bool
  is_failure none = false
  is_failure (some e) = if is_deadline e then false else true

  -- What `relay` returns behind `wg.Wait()`.
  unfoldable pub relay_error : Option Error → Option Error → Option Error
  relay_error err1 err = if is_failure err1 then err1 else if is_failure err then err else none

  -- `relay` returns once both copies have ended.
  unfoldable pub relay_returns : {L R : Type 0} → Relay L R → Option (Option Error)
  relay_returns s = elim s.up [
    | copying ↦ none
    | ended err1 ↦ elim s.down [ copying ↦ none | ended err ↦ some (relay_error err1 err) ]
  ]
