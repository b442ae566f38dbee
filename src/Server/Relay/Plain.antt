-- ===== src/Server/Relay/Plain.antt =====
-- `io.Copy` over `Read` and `Write`, for the copies of `relay` in m_server/socks_server.go.
use miniproxygo.Common.{
  ℕ, ◌≡◌, refl, sym, ap, subst, inl, inr, Bool-cases, none, some, List, [], ◌∷◌, length, drop,
  if◌then◌else◌, ltb, ltb→lt, ltb→ge, ◌==◌, append-nil, arith,
}
use miniproxygo.Io.{Error, Reader, Writer}
use miniproxygo.Io.Full.{prefix_nil}
use miniproxygo.Io.Network.{Duplex}
use miniproxygo.Server.Relay.{copy_size, copy_round}
use miniproxygo.Server.Relay.Lossless.{Copies}

module _ {S T : Type 0} (r : Reader S) (ps : Writer S) (rt : Reader T) (put : Writer T)
    (LiveS : S → List ℕ → List ℕ → Type 0) (LiveT : T → List ℕ → List ℕ → Type 0)
    (DS : Duplex r ps LiveS) (DT : Duplex rt put LiveT) where
  -- The loop of `io.Copy` over `Read` and `Write`, between connections that fail no call.
  pub copy_round-Copies : Copies (copy_round r put) r.budget rt.budget LiveS LiveT
  unfolding copy_round
  copy_round-Copies bs out bt out' s t hs ht =
      let x = r.read copy_size s in
      let y = put x.got t in
      let st = DS.delivers out copy_size s bs (omega arith) hs in
      let sent = DT.sends t bt out' x.got ht in
      let fine : (if y.count == length x.got then none else some Error.short_write) ≡ none =
        ground (arith, DT.counts t bt out' x.got ht) in
      elim (Bool-cases (ltb 0 (length x.got))) [
        | inl some_bytes ↦ elim st.verdict [
          | inl (ok, less) ↦
              rw (some_bytes, sent.0, fine, ok)
                (record {
                  moved = x.got;
                  left = drop (length x.got) bs;
                  in_order = st.in_order;
                  source = st.holds;
                  sink = sent.1;
                  unspent = DT.unspent t bt out' x.got ht;
                  verdict = inl (refl, less);
                })
          | inr (eof, empty) ↦ absurd (
              omega
                (arith, ltb→lt _ _ some_bytes, ap length (prefix_nil x.got bs st.in_order empty)))
        ]
        | inr no_bytes ↦
            let nothing : x.got ≡ [] = length_zero x.got (omega (arith, ltb→ge _ _ no_bytes)) in
            let same = subst (λ g. LiveS x.next (drop (length g) bs) out) nothing st.holds in
            elim st.verdict [
              | inl (ok, less) ↦
                  rw (no_bytes, ok)
                    (record {
                      moved = [];
                      left = bs;
                      in_order = refl;
                      source = same;
                      sink = subst (LiveT t bt) (sym (append-nil out')) ht;
                      unspent = refl;
                      verdict = inl (refl, less);
                    })
              | inr (eof, empty) ↦
                  rw (no_bytes, eof)
                    (record {
                      moved = [];
                      left = bs;
                      in_order = refl;
                      source = same;
                      sink = subst (LiveT t bt) (sym (append-nil out')) ht;
                      unspent = refl;
                      verdict = inr (refl, empty);
                    })
            ]
      ]
    where
      length_zero : (l : List ℕ) → length l ≡ 0 → l ≡ []
      length_zero [] e = refl
      length_zero (z ∷ l) e = absurd (omega arith)
