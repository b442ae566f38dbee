-- ===== src/Server/Cork/Timed.antt =====
-- A corked connection of m_server/socks_server.go with the turns that its timer takes, as the connection
-- under the encrypted one.
use miniproxygo.Common.{
  ℕ, ◌≡◌, sym, ap, ◌∙◌, subst, Bool, true, false, List, [], ◌∷◌, ◌++◌, append-nil,
}
use miniproxygo.Io.{Reader, Writer, Delivers, Sends}
use miniproxygo.Server.Cork.{CorkedConn, timed_cork, corked_write, timer_end}
use miniproxygo.Server.Cork.Order.{
  Delivering, corked_write-Wrote, timer_end-Delivering, timed_cork-Delivering,
}

-- `fires` says of each `Write` to come whether the timer's function gets the mutex before it, which has
-- no effect where the timer is not set or has fired.
pub record Timed (T : Type 0) : Type 0 where
  pub conn : CorkedConn T
  pub fires : List Bool

-- `timedCork`
abbrev pub timed : {T : Type 0} → List Bool → T → Timed T
timed fires t = record { conn = timed_cork t; fires = fires }

-- `Read` is that of the embedded connection.
unfoldable pub timed_reader : {T : Type 0} → Reader T → Reader (Timed T)
timed_reader r = record {
  read = λ n w.
      let x = r.read n w.conn.bufw.wr in
      record {
        got = x.got;
        err = x.err;
        next = record w { conn = record (w.conn) { bufw = record (w.conn.bufw) { wr = x.next } } };
      };
  budget = λ w. r.budget w.conn.bufw.wr;
}

module _ {T : Type 0} (put : Writer T) where
  abbrev at_turn : List Bool → CorkedConn T → CorkedConn T
  at_turn (true ∷ bs) w = timer_end put w
  at_turn _ w = w

  abbrev later_turns : List Bool → List Bool
  later_turns [] = []
  later_turns (b ∷ bs) = bs

  -- `Write`, behind the timer's function where that comes first.
  unfoldable pub timed_write : Writer (Timed T)
  timed_write p w =
      let y = corked_write put p (at_turn w.fires w.conn) in
      record {
        count = y.count;
        err = y.err;
        next = record { conn = y.next; fires = later_turns w.fires };
      }

module _ {T : Type 0} (put : Writer T) (Sent : T → List ℕ → Type 0) (O : Sends put Sent) where
  at_turn-Delivering :
      (fires : List Bool) (all : List ℕ) (w : CorkedConn T)
      → Delivering put Sent O all w
      → Delivering put Sent O all (at_turn put fires w)
  at_turn-Delivering [] all w d = d
  at_turn-Delivering (true ∷ bs) all w d = timer_end-Delivering put Sent O all w d
  at_turn-Delivering (false ∷ bs) all w d = d

  abbrev pub Gathered : Timed T → List ℕ → Type 0
  Gathered w all = Delivering put Sent O all w.conn

  -- It keeps the contract of a writer, whenever the timer fires.
  pub timed_write-Sends : Sends (timed_write put) Gathered
  unfolding timed_write
  timed_write-Sends w all p d =
      let t =
        corked_write-Wrote put Sent O p all (at_turn put w.fires w.conn)
          (at_turn-Delivering w.fires all w.conn d) in
      (t.ok, t.counted, t.next)

  pub timed-Gathered : (fires : List Bool) (t : T) → Sent t [] → Gathered (timed fires t) []
  timed-Gathered fires t s = timed_cork-Delivering put Sent O t s

  -- Once the timer has fired, all that has been written has gone out.
  pub timer_end-Sent :
      (all : List ℕ) (w : CorkedConn T)
      → Delivering put Sent O all w
      → (timer_end put w).corked ≡ false
      → Sent (timer_end put w).bufw.wr all
  timer_end-Sent all w d fired =
      let d' = timer_end-Delivering put Sent O all w d in
      let o = d'.in_order in
      subst (Sent (timer_end put w).bufw.wr)
        (sym (append-nil o.out) ∙ ap (λ l. o.out ++ l) (sym (d'.nothing_kept fired)) ∙ o.whole)
        o.sent

module _ {T : Type 0} (r : Reader T) (Holds : T → List ℕ → Type 0) where
  abbrev pub Below : Timed T → List ℕ → Type 0
  Below w bs = Holds w.conn.bufw.wr bs

  -- It keeps the contract of a reader that the connection below keeps.
  pub timed_reader-Delivers : Delivers r Holds → Delivers (timed_reader r) Below
  unfolding timed_reader
  timed_reader-Delivers D n w bs pos h =
      let st = D n w.conn.bufw.wr bs pos h in
      record { fits = st.fits; in_order = st.in_order; holds = st.holds; verdict = st.verdict }
