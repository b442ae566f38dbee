-- ===== src/Socks/Handler/Failing.antt =====
-- `Serv` of m_socks/handler.go with any client: what it does not understand ends the connection only.
use miniproxygo.Common.{
  ℕ, ◌-◌, ◌<◌, ◌≤◌, ◌≡◌, refl, sym, ap, ◌∙◌, ◌⊎◌, inl, inr, Bool-cases, Option-cases, none, List,
  [], ◌∷◌, ◌++◌, length, get_or, replicate, ltb, ltb→ge, ◌==◌, ==_iff, arith,
}
use miniproxygo.Io.{Error, Result, ok, err, Reader, Writer}
use miniproxygo.Internal.Outcome.{Outcome, returns, panics, ◌>>=◌}
use miniproxygo.Socks.Addr.{Net}
use miniproxygo.Socks.HandShake.{method_reply}
use miniproxygo.Socks.Handler.{
  Request, new_request, verify, connect, host_of, resolve, response_verify, response_connect,
  target, serv, Served, gave_up, relays, recovered, dialled, connect_target, serve,
}

Result-cases : {A : Type 0} (z : Result A) → ((a : A) × (z ≡ ok a)) ⊎ ((e : Error) × (z ≡ err e))
Result-cases (ok a) = inl (a, refl)
Result-cases (err e) = inr (e, refl)

first_byte : (l zs : List ℕ) → 0 < length l → get_or (l ++ zs) 0 0 ≡ get_or l 0 0
first_byte [] zs h = absurd (omega arith)
first_byte (b ∷ l) zs h = refl

module _ {C T : Type 0} (r : Reader C) (put : Writer C) (names : Net) (rt : Reader T)
    (put_t : Writer T) (dial : List ℕ → Result T) where
  -- One `Read` has brought three bytes at least.
  abbrev pub Heard : C → Type 0
  Heard c = ((r.read 1024 c).err ≡ none) × (3 ≤ length (r.read 1024 c).got)

  host_of-ends :
      (b : List ℕ) (n : ℕ) (old : List ℕ)
      → (host_of r put names b n old ≡ panics)
        ⊎ ((host : List ℕ) × (host_of r put names b n old ≡ returns host))
  host_of-ends b n old = elim (Bool-cases (get_or b 3 0 == 1)) [
    | inl four ↦ rw four (inr (_, refl))
    | inr not_four ↦ elim (Bool-cases (get_or b 3 0 == 3)) [
      | inl name ↦ elim (Bool-cases (ltb n 7)) [
        | inl short ↦ rw (not_four, name, short) (inl refl)
        | inr long ↦ rw (not_four, name, long) (inr (_, refl))
      ]
      | inr not_name ↦ elim (Bool-cases (get_or b 3 0 == 4)) [
        | inl six ↦ rw (not_four, not_name, six) (inr (_, refl))
        | inr other ↦ rw (not_four, not_name, other) (inr (_, refl))
      ]
    ]
  ]

  resolve_connect-ends :
      (q : Request C)
      → (resolve r put names connect q ≡ panics)
        ⊎ ((q' : Request C) × (resolve r put names connect q ≡ returns q') × Heard q.conn)
  unfolding resolve
  resolve_connect-ends q =
      let y = r.read 1024 q.conn in
      let n = length y.got in
      elim (Option-cases y.err) [
        | inr (e, failed) ↦ rw failed (inl refl)
        | inl fine ↦ elim (Bool-cases (ltb n 3)) [
          | inl short ↦ rw (fine, short) (inl refl)
          | inr enough ↦ elim (host_of-ends (y.got ++ replicate (1024 - n) 0) n q.host) [
            | inl bad ↦ rw (fine, enough, bad) (inl refl)
            | inr (host, good) ↦ rw (fine, enough, good) (inr (_, refl, (refl, ltb→ge n 3 enough)))
          ]
        ]
      ]

  resolve_verify-ends :
      (q : Request C)
      → (resolve r put names verify q ≡ panics)
        ⊎ (resolve r put names verify q
            ≡ returns (record q { conn = (r.read 1024 q.conn).next; version = 5 }))
          × Heard q.conn
          × (get_or (r.read 1024 q.conn).got 0 0 ≡ 5)
  unfolding resolve
  resolve_verify-ends q =
      let y = r.read 1024 q.conn in
      let n = length y.got in
      let b = y.got ++ replicate (1024 - n) 0 in
      elim (Option-cases y.err) [
        | inr (e, failed) ↦ rw failed (inl refl)
        | inl fine ↦ elim (Bool-cases (ltb n 3)) [
          | inl short ↦ rw (fine, short) (inl refl)
          | inr enough ↦ elim (Bool-cases (get_or b 0 0 == 5)) [
            | inr other ↦ rw (fine, enough, other) (inl refl)
            | inl five ↦
                let three = ltb→ge n 3 enough in
                let same = first_byte y.got (replicate (1024 - n) 0) (omega (arith, three)) in
                rw (fine, enough, five) (inr (refl, (refl, three), sym same ∙ (==_iff _ _).0 five))
          ]
        ]
      ]

  -- `Serv`, whatever the client's connection and the dial do, ends in one of two ways. Either it gives
  -- up; a panic on the way does not go on. Or it relays, and then two calls of `Read` have brought at
  -- least three bytes each without error, the first of them a 5, and the dial of the request's target
  -- has given the connection that it relays to.
  pub serve-ends :
      (c : C)
      → (serve r put names rt put_t dial (new_request c) ≡ returns gave_up)
        ⊎ (q : Request C) × (t : T) × (serve r put names rt put_t dial (new_request c)
            ≡ returns (relays q t))
          × Heard c
          × (get_or (r.read 1024 c).got 0 0 ≡ 5)
          × Heard (put method_reply (r.read 1024 c).next).next
          × (dial (target r put names q) ≡ ok t)
  unfolding serve serv connect_target
  serve-ends c =
      let second : Outcome (Request C) → Outcome (Served C T) = λ m. recovered (
        (m >>= λ q'. returns (response_connect r put names q'))
        >>= connect_target r put names rt put_t dial) in
      let first : Outcome (Request C) → Outcome (Served C T) = λ m. recovered (
        (m >>= λ q. resolve r put names connect (response_verify r put names q) >>= λ q'.
        returns (response_connect r put names q'))
        >>= connect_target r put names rt put_t dial) in
      let q1 : Request C = record (new_request c) {
        conn = (put method_reply (r.read 1024 c).next).next;
        version = 5;
      } in
      elim (resolve_verify-ends (new_request c)) [
        | inl bad ↦ inl (ap first bad)
        | inr (went, heard, five) ↦ elim (resolve_connect-ends q1) [
          | inl bad ↦ inl (ap first went ∙ ap second bad)
          | inr (q2, went2, heard2) ↦
              let q3 = response_connect r put names q2 in
              let end : Result T → Outcome (Served C T) =
                λ z. recovered (dialled r put names rt put_t dial q3 z) in
              elim (Result-cases (dial (target r put names q3))) [
                | inr (e, refused) ↦ inl (ap first went ∙ ap second went2 ∙ ap end refused)
                | inl (t, answered) ↦ inr (
                  q3,
                  t,
                  ap first went ∙ ap second went2 ∙ ap end answered,
                  heard,
                  five,
                  heard2,
                  answered,
                )
              ]
        ]
      ]
