-- ===== src/Socks/Handler/Relay.antt =====
-- A goroutine of `Relay` in m_socks/handler.go copies.
use miniproxygo.Common.{
  ℕ, refl, sym, subst, inl, inr, Bool-cases, List, [], ◌++◌, length, drop, ◌==◌, ==_iff, append-nil,
  arith,
}
use miniproxygo.Io.{Reader, Writer}
use miniproxygo.Io.Full.{prefix_nil}
use miniproxygo.Io.Network.{Duplex}
use miniproxygo.Socks.Handler.{copy_once}
use miniproxygo.Server.Relay.Lossless.{Copies}

module _ {S T : Type 0} (r : Reader S) (ps : Writer S) (rt : Reader T) (put : Writer T)
    (LiveS : S → List ℕ → List ℕ → Type 0) (LiveT : T → List ℕ → List ℕ → Type 0)
    (DS : Duplex r ps LiveS) (DT : Duplex rt put LiveT) where
  -- A goroutine of `Relay`, between connections that fail no call.
  pub copy_once-Copies : Copies (copy_once r put) r.budget rt.budget LiveS LiveT
  unfolding copy_once
  copy_once-Copies bs out bt out' s t hs ht =
      let x = r.read 50 s in
      let y = put x.got t in
      let st = DS.delivers out 50 s bs (omega arith) hs in
      let sent = DT.sends t bt out' x.got ht in
      let unmoved : LiveT t bt (out' ++ []) = subst (LiveT t bt) (sym (append-nil out')) ht in
      elim st.verdict [
        | inr (eof, empty) ↦ rw eof (record {
          moved = [];
          left = bs;
          in_order = refl;
          source =
              subst (λ g. LiveS x.next (drop (length g) bs) out)
                (prefix_nil x.got bs st.in_order empty) st.holds;
          sink = unmoved;
          unspent = refl;
          verdict = inr (refl, empty);
        })
        | inl (fine, less) ↦ elim (Bool-cases (length x.got == 0)) [
          | inl nothing ↦
              rw (fine, nothing)
                (record {
                  moved = [];
                  left = bs;
                  in_order = refl;
                  source =
                      subst (λ n. LiveS x.next (drop n bs) out) ((==_iff _ _).0 nothing) st.holds;
                  sink = unmoved;
                  unspent = refl;
                  verdict = inl (refl, less);
                })
          | inr something ↦
              rw (fine, something, sent.0)
                (record {
                  moved = x.got;
                  left = drop (length x.got) bs;
                  in_order = st.in_order;
                  source = st.holds;
                  sink = sent.1;
                  unspent = DT.unspent t bt out' x.got ht;
                  verdict = inl (refl, less);
                })
        ]
      ]
