-- ===== src/Server/Cork/Contract.antt =====
-- A corked connection of m_server/socks_server.go in both directions.
use miniproxygo.Common.{ℕ, ◌≡◌, refl, sym, ◌∙◌, subst, Bool, List, [], ◌++◌}
use miniproxygo.Io.{Reader, Writer, Sends}
use miniproxygo.Io.Network.{Duplex}
use miniproxygo.Server.Cork.Order.{Delivering}
use miniproxygo.Server.Cork.Timed.{
  Timed, timed, timed_reader, timed_write, timed_write-Sends, timed-Gathered,
}

module _ {T : Type 0} (r : Reader T) (put : Writer T) (Live : T → List ℕ → List ℕ → Type 0)
    (D : Duplex r put Live) where
  -- What the connection below has sent, where its input is `bs`, and the bound on its reads `k`.
  abbrev Kept : List ℕ → ℕ → T → List ℕ → Type 0
  Kept bs k t out = Live t bs out × (r.budget t ≡ k)

  pub Kept-Sends : (bs : List ℕ) (k : ℕ) → Sends put (Kept bs k)
  Kept-Sends bs k t out p (live, same) =
      let w = D.sends t bs out p live in
      (w.0, D.counts t bs out p live, (w.1, D.unspent t bs out p live ∙ same))

  abbrev Bounded : List ℕ → ℕ → List ℕ → Timed T → Type 0
  Bounded bs k all w = Delivering put (Kept bs k) (Kept-Sends bs k) all w.conn

  -- `bs` is to be read of the connection below; `all` has been written, and has gone out there or is
  -- still held back.
  abbrev pub Corked : Timed T → List ℕ → List ℕ → Type 0
  Corked w bs all = Bounded bs (r.budget w.conn.bufw.wr) all w

  again : (bs all : List ℕ) (k : ℕ) (w : Timed T) → Bounded bs k all w → Corked w bs all
  again bs all k w d = subst (λ m. Bounded bs m all w) (sym d.in_order.sent.1) d

  -- A connection in `timedCork`, over a connection that keeps the contract of one: whenever the timer
  -- fires, it keeps the contract itself. `Read` hands out the input below in order, and `Write` takes
  -- all that it is given; neither fails.
  pub timed-Duplex : Duplex (timed_reader r) (timed_write put) Corked
  unfolding timed_reader
  timed-Duplex = record {
    delivers = λ all n w bs pos d.
        let o = d.in_order in
        let st = D.delivers o.out n w.conn.bufw.wr bs pos o.sent.0 in
        record {
          fits = st.fits;
          in_order = st.in_order;
          holds = record {
            in_order = record {
              out = o.out;
              sent = (st.holds, refl);
              whole = o.whole;
              no_error = o.no_error;
              fits = o.fits;
            };
            no_error = d.no_error;
            nothing_kept = d.nothing_kept;
          };
          verdict = st.verdict;
        };
    sends = λ w bs all p d.
        let k = r.budget w.conn.bufw.wr in
        let y = timed_write-Sends put (Kept bs k) (Kept-Sends bs k) w all p d in
        (y.0, again bs (all ++ p) k (timed_write put p w).next y.2);
    counts = λ w bs all p d.
        let k = r.budget w.conn.bufw.wr in
        (timed_write-Sends put (Kept bs k) (Kept-Sends bs k) w all p d).1;
    unspent = λ w bs all p d.
        let k = r.budget w.conn.bufw.wr in
        (timed_write-Sends put (Kept bs k) (Kept-Sends bs k) w all p d).2.in_order.sent.1;
  }

  -- A new one.
  pub timed-Corked :
      (fires : List Bool) (t : T) (bs : List ℕ) → Live t bs [] → Corked (timed fires t) bs []
  timed-Corked fires t bs live =
      timed-Gathered put (Kept bs (r.budget t)) (Kept-Sends bs (r.budget t)) fires t (live, refl)
