-- ===== src/Socks/Handler/Serving.antt =====
-- `Serv` of m_socks/handler.go from the greeting through `Relay`.
use miniproxygo.Common.{
  ℕ, ◌+◌, ◌<◌, ◌≤◌, ◌≡◌, ◌⊎◌, refl, sym, ap, ◌∙◌, subst, inl, inr, true, none, List, [], ◌++◌,
  length, length-append, drop, ge→ltb, drop-append, arith,
}
use miniproxygo.Io.{Error, Result, ok, Reader, Writer}
use miniproxygo.Io.Network.{Duplex}
use miniproxygo.Internal.Outcome.{Outcome, returns, ◌>>=◌}
use miniproxygo.Socks.Addr.{Net, to_string}
use miniproxygo.Socks.Addr.Wire.{Address, encode, IsAddress}
use miniproxygo.Socks.HandShake.{method_reply, connect_reply}
use miniproxygo.Socks.HandShake.Replies.{greeting, request}
use miniproxygo.Socks.Handler.{
  Request, new_request, verify, connect, resolve, response_verify, response_connect, serv, Served,
  relays, recovered, dialled, connect_target, serve, to_local, to_remote,
}
use miniproxygo.Socks.Handler.Target.{resolve-to_string}
use miniproxygo.Socks.Handler.Relay.{copy_once-Copies}
use miniproxygo.Server.Relay.{Relay, relay_start, Step, Reach}
use miniproxygo.Server.Relay.Lossless.{Copies, Relaying, Reach-Relaying}
use miniproxygo.Server.Relay.Ends.{relay-Returned}

module _ {C T : Type 0} (r : Reader C) (put : Writer C) (names : Net) (rt : Reader T)
    (put_t : Writer T) (dial : List ℕ → Result T) (LiveC : C → List ℕ → List ℕ → Type 0)
    (DC : Duplex r put LiveC) where
  -- A call of `Read` that brings a whole message.
  message :
      (c : C) (msg rest out : List ℕ)
      → 0 < length msg
      → LiveC c (msg ++ rest) out
      → (r.read 1024 c).got ≡ msg
      → ((r.read 1024 c).err ≡ none) × LiveC (r.read 1024 c).next rest out
  message c msg rest out some_bytes live got =
      let st = DC.delivers out 1024 c (msg ++ rest) (omega arith) live in
      (
        elim st.verdict [
          | inl (fine, less) ↦ fine
          | inr (eof, empty) ↦ absurd (omega (arith, ap length empty, length-append msg rest))
        ],
        subst (λ z. LiveC (r.read 1024 c).next z out)
            (ap (λ g. drop (length g) (msg ++ rest)) got ∙ drop-append (length msg) msg rest refl)
            st.holds,
      )

  resolve-greeting :
      (methods : List ℕ) (q : Request C)
      → 0 < length methods
      → (r.read 1024 q.conn).err ≡ none
      → (r.read 1024 q.conn).got ≡ greeting 5 methods
      → resolve r put names verify q
        ≡ returns (record q { conn = (r.read 1024 q.conn).next; version = 5 })
  unfolding resolve
  resolve-greeting methods q some_methods fine got =
      rw (fine, got, ge→ltb (length (greeting 5 methods)) 3 (omega arith)) refl

  -- `Serv`, over a client's connection that fails no call. One `Read` brings a greeting of version 5
  -- with at least one method, and the next one a whole request, with any command, for a well-formed
  -- address; the target of that address answers the dial. Then `Serv` relays to that target; the client
  -- has been sent the two replies, and what it sends behind its request is still to be read.
  pub serve-relays :
      (ver2 cmd rsv : ℕ) (methods : List ℕ) (y : Address) (rest : List ℕ) (c : C) (t : T)
      → 0 < length methods
      → IsAddress y
      → LiveC c (greeting 5 methods ++ (request ver2 cmd rsv y ++ rest)) []
      → (r.read 1024 c).got ≡ greeting 5 methods
      → (r.read 1024 (put method_reply (r.read 1024 c).next).next).got ≡ request ver2 cmd rsv y
      → dial (to_string names (encode y)) ≡ ok t
      → (q : Request C) × (serve r put names rt put_t dial (new_request c) ≡ returns (relays q t))
        × LiveC q.conn rest (method_reply ++ connect_reply)
  unfolding serve serv connect_target
  serve-relays ver2 cmd rsv methods y rest c t some_methods valid live got got2 answers =
      let req = request ver2 cmd rsv y in
      let c1 = (r.read 1024 c).next in
      let c2 = (put method_reply c1).next in
      let (fine, live1) = message c (greeting 5 methods) (req ++ rest) [] (omega arith) live got in
      let first = resolve-greeting methods (new_request c) some_methods fine got in
      let sent = DC.sends c1 (req ++ rest) [] method_reply live1 in
      let (fine2, live2) = message c2 req rest ([] ++ method_reply) (omega arith) sent.1 got2 in
      let q1 = record (new_request c) { conn = c2; version = 5 } in
      let (q2, second, dialled_text, same, ver) =
        resolve-to_string r put names ver2 cmd rsv y q1 valid fine2 got2 in
      let q3 = response_connect r put names q2 in
      let done = DC.sends (r.read 1024 c2).next rest method_reply connect_reply live2 in
      (
        q3,
        ap
              (λ m. recovered (
                (m >>= λ q. resolve r put names connect (response_verify r put names q) >>= λ q'.
                returns (response_connect r put names q'))
                >>= connect_target r put names rt put_t dial))
              first
            ∙ ap
                (λ m. recovered (
                  (m >>= λ q'. returns (response_connect r put names q'))
                  >>= connect_target r put names rt put_t dial))
                second
            ∙ ap (λ z. recovered (dialled r put names rt put_t dial q3 z))
                (ap dial dialled_text ∙ answers),
        subst (λ z. LiveC (put connect_reply z).next rest (method_reply ++ connect_reply))
            (sym same) done.1,
      )

  module _ (LiveT : T → List ℕ → List ℕ → Type 0) (DT : Duplex rt put_t LiveT) where
    abbrev up_copies : Copies (to_remote r put names rt put_t dial) r.budget rt.budget LiveC LiveT
    up_copies = copy_once-Copies r put rt put_t LiveC LiveT DC DT

    abbrev down_copies : Copies (to_local r put names rt put_t dial) rt.budget r.budget LiveT LiveC
    down_copies = copy_once-Copies rt put_t r put LiveT LiveC DT DC

    -- `Serv`, over connections that fail no call. One `Read` of the client brings a greeting of version
    -- 5 with at least one method, and the next one a whole request, with any command, for a well-formed
    -- address; the target of that address answers the dial, and its input is `back`. Once `Serv` relays,
    -- in every state that the two goroutines of `Relay` can reach together, the target has been given a
    -- beginning of what the client sends behind its request, and the client the two replies and a
    -- beginning of `back`; what is left of both is still to be read. The steps are at most as many as the
    -- reads left on both sides, and two more; where no step is left both directions have been copied
    -- whole.
    pub serve-Relaying :
        (ver2 cmd rsv : ℕ) (methods : List ℕ) (y : Address) (rest back : List ℕ) (c : C) (t t' : T)
        (q : Request C) (dl : Error) (n : ℕ) (s : Relay C T)
        → 0 < length methods
        → IsAddress y
        → LiveC c (greeting 5 methods ++ (request ver2 cmd rsv y ++ rest)) []
        → (r.read 1024 c).got ≡ greeting 5 methods
        → (r.read 1024 (put method_reply (r.read 1024 c).next).next).got ≡ request ver2 cmd rsv y
        → dial (to_string names (encode y)) ≡ ok t
        → LiveT t back []
        → serve r put names rt put_t dial (new_request c) ≡ returns (relays q t')
        → Reach
            (to_remote r put names rt put_t dial)
            (to_local r put names rt put_t dial)
            0
            dl
            (relay_start q.conn t')
            n
            s
        → Relaying LiveC LiveT 0 dl rest (method_reply ++ connect_reply) back [] s
          × (n ≤ r.budget q.conn + rt.budget t' + 2)
          × (((s' : Relay C T) × Step
                  (to_remote r put names rt put_t dial)
                  (to_local r put names rt put_t dial)
                  0
                  dl
                  s
                  s')
              ⊎ LiveC s.left [] ((method_reply ++ connect_reply) ++ back) × LiveT s.right [] rest)
    serve-Relaying ver2 cmd rsv methods y rest back c t t' q dl n s some_methods valid live got got2
          answers live_t ran reached =
        let (q1, ran1, live1) =
          serve-relays ver2 cmd rsv methods y rest c t some_methods valid live got got2 answers in
        let e : ◌≡◌ {A = Outcome (Served C T)} (returns (relays q1 t)) (returns (relays q t')) =
          sym ran1 ∙ ran in
        let same : q1 ≡ q = cc (e) in
        let same' : t ≡ t' = cc (e) in
        let hc = subst (λ z. LiveC z.conn rest (method_reply ++ connect_reply)) same live1 in
        let ht = subst (λ z. LiveT z back []) same' live_t in
        let up = to_remote r put names rt put_t dial in
        let down = to_local r put names rt put_t dial in
        let (in_time, ends) =
          relay-Returned up down r.budget rt.budget LiveC LiveT up_copies down_copies 0 dl rest
            (method_reply ++ connect_reply) back [] (λ z. true) q.conn t' n s refl hc ht reached in
        (
          Reach-Relaying up down r.budget rt.budget LiveC LiveT up_copies down_copies 0 dl rest
              (method_reply ++ connect_reply) back [] q.conn t' hc ht reached,
          in_time,
          elim ends [ inl more ↦ inl more | inr done ↦ inr done.1 ],
        )
