-- ===== src/Server/Cork/Order.antt =====
-- A corked connection of m_server/socks_server.go neither loses nor reorders bytes.
use miniproxygo.Common.{
  ℕ, zero, suc, ◌+◌, ◌-◌, ◌≤◌, ◌<◌, ◌≡◌, refl, sym, ap, ap₂, ◌∙◌, subst, inl, inr, true, false,
  Bool-cases, ◌&&◌, Option, none, List, [], ◌∷◌, ◌++◌, length, take, drop, ltb, ◌==◌, ==_iff,
  ltb→lt, ltb→ge, ge→ltb, length-append, length-take, length-drop, take-append-drop, append_assoc,
  append-nil, drop_all, arith,
}
use miniproxygo.Io.{Error, Write, Writer, Sends}
use miniproxygo.Server.Cork.{
  Buffered, buf_size, flush, buffered_write, CorkedConn, timed_cork, corked_write, uncork, Event,
  written, timer, cork_run, timer_end,
}

none_held : (l : List ℕ) → length l ≤ 0 → l ≡ []
none_held [] k = refl
none_held (x ∷ l) k = absurd (omega arith)

corked_still : true ≡ false → ⊥
corked_still e = cc

-- Bytes that go past an empty buffer.
go_past :
    (out p : List ℕ) {held all : List ℕ}
    → held ≡ []
    → out ++ held ≡ all
    → (out ++ p) ++ held ≡ all ++ p
go_past out p none_left whole =
    ap (λ l. (out ++ p) ++ l) none_left
    ∙ append-nil (out ++ p)
    ∙ ap (λ l. l ++ p) (sym (append-nil out) ∙ ap (λ l. out ++ l) (sym none_left) ∙ whole)

module _ {T : Type 0} (put : Writer T) (Sent : T → List ℕ → Type 0) (O : Sends put Sent) where
  -- A buffer without error: what has gone out and what it holds back are `all`, in this order.
  pub record InOrder (all : List ℕ) (b : Buffered T) : Type 0 where
    pub out : List ℕ
    pub sent : Sent b.wr out
    pub whole : out ++ b.held ≡ all
    pub no_error : b.err ≡ none
    pub fits : length b.held ≤ buf_size

  record Took (all : List ℕ) (n : ℕ) (y : Write (Buffered T)) : Type 0 where
    counted : y.count ≡ n
    ok : y.err ≡ none
    next : InOrder all y.next

  flush-InOrder :
      (all : List ℕ) (b : Buffered T)
      → InOrder all b
      → InOrder all (flush put b) × ((flush put b).held ≡ [])
  unfolding flush
  flush-InOrder all b h = elim (Bool-cases (ltb 0 (length b.held))) [
    | inl some_held ↦
        let w = O b.wr h.out b.held h.sent in
        rw (h.no_error, some_held, w.0, w.1, ge→ltb (length b.held) (length b.held) (omega arith))
          (
            record {
              out = h.out ++ b.held;
              sent = w.2;
              whole = append-nil _ ∙ h.whole;
              no_error = refl;
              fits = omega arith;
            },
            refl,
          )
    | inr nothing ↦
        let empty : b.held ≡ [] = none_held b.held (ltb→ge _ _ nothing) in
        rw (h.no_error, nothing)
          (
            record { out = h.out; sent = h.sent; whole = h.whole; no_error = refl; fits = h.fits },
            empty,
          )
  ]

  fits-Took :
      (fuel nn : ℕ) (p all : List ℕ) (b : Buffered T)
      → 0 < fuel
      → length p ≤ buf_size - length b.held
      → InOrder all b
      → Took (all ++ p) (nn + length p) (buffered_write put fuel nn p b)
  unfolding buffered_write
  fits-Took zero nn p all b pos room h = absurd (omega arith)
  fits-Took (suc fuel) nn p all b pos room h =
      rw (ge→ltb (buf_size - length b.held) (length p) room, h.no_error)
        (record {
          counted = refl;
          ok = refl;
          next = record {
            out = h.out;
            sent = h.sent;
            no_error = refl;
            whole = sym (append_assoc h.out b.held p) ∙ ap (λ l. l ++ p) h.whole;
            fits = omega (arith, length-append b.held p, h.fits);
          };
        })

  retake :
      {all all' : List ℕ} {n n' : ℕ} {y : Write (Buffered T)}
      → all ≡ all'
      → n ≡ n'
      → Took all n y
      → Took all' n' y
  retake {all} {all'} {n} {n'} {y} e k t =
      subst (λ m. Took all' m y) k (subst (λ l. Took l n y) e t)

  -- With an empty buffer: what is too long for it goes past it.
  empty-Took :
      (fuel nn : ℕ) (p all : List ℕ) (b : Buffered T)
      → 1 < fuel
      → length b.held ≡ 0
      → InOrder all b
      → Took (all ++ p) (nn + length p) (buffered_write put fuel nn p b)
  unfolding buffered_write
  empty-Took zero nn p all b pos empty h = absurd (omega arith)
  empty-Took (suc fuel) nn p all b pos empty h =
      elim (Bool-cases (ltb (buf_size - length b.held) (length p))) [
        | inr room ↦ fits-Took (suc fuel) nn p all b (omega arith) (ltb→ge _ _ room) h
        | inl long ↦
            let y = put p b.wr in
            let w = O b.wr h.out p h.sent in
            let none_left : b.held ≡ [] = none_held b.held (omega arith) in
            let gone : drop y.count p ≡ [] = drop_all y.count p (omega (arith, w.1)) in
            let past : InOrder (all ++ p) (record b { err = y.err; wr = y.next }) = record {
              out = h.out ++ p;
              sent = w.2;
              no_error = w.0;
              fits = h.fits;
              whole = go_past h.out p none_left h.whole;
            } in
            rw (long, h.no_error, (==_iff _ _).1 empty)
              (retake (ap (λ l. (all ++ p) ++ l) gone ∙ append-nil (all ++ p))
                (omega (arith, w.1, ap length gone))
                (fits-Took fuel (nn + y.count) (drop y.count p) (all ++ p)
                  (record b { err = y.err; wr = y.next }) (omega arith)
                  (omega (arith, ap length gone)) past))
      ]

  full-Took :
      (fuel nn : ℕ) (p all : List ℕ) (b : Buffered T)
      → length p + 1 < fuel
      → InOrder all b
      → Took (all ++ p) (nn + length p) (buffered_write put fuel nn p b)
  unfolding buffered_write
  full-Took zero nn p all b pos h = absurd (omega arith)
  full-Took (suc fuel) nn p all b pos h =
      elim (Bool-cases (ltb (buf_size - length b.held) (length p))) [
        | inr room ↦ fits-Took (suc fuel) nn p all b (omega arith) (ltb→ge _ _ room) h
        | inl long ↦ elim (Bool-cases (length b.held == 0)) [
          | inl empty ↦
              empty-Took (suc fuel) nn p all b (omega (arith, ltb→lt _ _ long))
                ((==_iff _ _).0 empty) h
          | inr some_held ↦
              let room = buf_size - length b.held in
              let filled : Buffered T = record {
                held = b.held ++ take room p;
                err = none;
                wr = b.wr;
              } in
              let fits : length (b.held ++ take room p) ≤ buf_size =
                omega (arith, length-append b.held (take room p), length-take room p, h.fits) in
              let (flushed, empty) = flush-InOrder (all ++ take room p) filled (record {
                out = h.out;
                sent = h.sent;
                no_error = refl;
                fits = fits;
                whole =
                    sym (append_assoc h.out b.held (take room p))
                    ∙ ap (λ l. l ++ take room p) h.whole;
              }) in
              let rest =
                empty-Took fuel (nn + room) (drop room p) (all ++ take room p) (flush put filled)
                  (omega (arith, ltb→lt _ _ long)) (ap length empty) flushed in
              rw (long, h.no_error, some_held)
                (retake {n = nn + room + length (drop room p)}
                  (append_assoc all (take room p) (drop room p)
                    ∙ ap (λ l. all ++ l) (take-append-drop room p))
                  (omega (arith, length-drop room p, ltb→lt _ _ long)) rest)
        ]
      ]

  -- `all` has been written to the connection, and its bytes have gone out or are still held back; no
  -- call has failed. Once the timer has fired nothing is held back.
  pub record Delivering (all : List ℕ) (w : CorkedConn T) : Type 0 where
    pub in_order : InOrder all w.bufw
    pub no_error : w.err ≡ none
    pub nothing_kept : w.corked ≡ false → w.bufw.held ≡ []

  -- A call of `Write` takes all of `p` and reports no error.
  pub record Wrote (all : List ℕ) (n : ℕ) (y : Write (CorkedConn T)) : Type 0 where
    pub counted : y.count ≡ n
    pub ok : y.err ≡ none
    pub next : Delivering all y.next

  pub corked_write-Wrote :
      (p all : List ℕ) (w : CorkedConn T)
      → Delivering all w
      → Wrote (all ++ p) (length p) (corked_write put p w)
  unfolding corked_write
  corked_write-Wrote p all w d = elim (Bool-cases w.corked) [
    | inl on ↦
        let t = full-Took (2 + length p) 0 p all w.bufw (omega arith) d.in_order in
        rw (d.no_error, on)
          (record {
            counted = t.counted ∙ omega arith;
            ok = t.ok;
            next = record {
              in_order = t.next;
              no_error = refl;
              nothing_kept = λ q. absurd (corked_still q);
            };
          })
    | inr off ↦
        let o = d.in_order in
        let y = O w.bufw.wr o.out p o.sent in
        let empty = d.nothing_kept off in
        rw (d.no_error, off)
          (record {
            counted = y.1;
            ok = y.0;
            next = record {
              in_order = record {
                out = o.out ++ p;
                sent = y.2;
                no_error = o.no_error;
                fits = o.fits;
                whole = go_past o.out p empty o.whole;
              };
              no_error = refl;
              nothing_kept = λ q. empty;
            };
          })
  ]

  uncork-Delivering :
      (all : List ℕ) (w : CorkedConn T) → Delivering all w → Delivering all (uncork put w)
  unfolding uncork
  uncork-Delivering all w d =
      let (kept, empty) = flush-InOrder all w.bufw d.in_order in
      record { in_order = kept; no_error = kept.no_error; nothing_kept = λ q. empty }

  -- The bytes of all calls of `Write` in a row.
  abbrev pub bytes_of : List Event → List ℕ
  bytes_of [] = []
  bytes_of (written p ∷ es) = p ++ bytes_of es
  bytes_of (timer ∷ es) = bytes_of es

  -- What the calls of `Write` return when each of them takes all of its bytes.
  abbrev pub all_taken : List Event → List (ℕ × Option Error)
  all_taken [] = []
  all_taken (written p ∷ es) = (length p, none) ∷ all_taken es
  all_taken (timer ∷ es) = all_taken es

  pub timer_end-Delivering :
      (all : List ℕ) (w : CorkedConn T) → Delivering all w → Delivering all (timer_end put w)
  unfolding timer_end
  timer_end-Delivering all w d = elim (Bool-cases (w.timer_set && w.corked)) [
    | inl fires ↦ rw fires (uncork-Delivering all w d)
    | inr not_yet ↦ rw not_yet d
  ]

  -- Calls of `Write` and the end of the timer, in any order, over a connection that fails no call:
  -- every call of `Write` returns the length of what it was given and no error, and what has gone
  -- out and what the buffer still holds back are the written bytes in order; once the timer has
  -- fired nothing is held back.
  pub cork_run-Delivering :
      (es : List Event) (all : List ℕ) (w : CorkedConn T)
      → Delivering all w
      → ((cork_run put es w).0 ≡ all_taken es)
        × Delivering (all ++ bytes_of es) (cork_run put es w).1
  unfolding cork_run
  cork_run-Delivering [] all w d = (refl, subst (λ l. Delivering l w) (sym (append-nil all)) d)
  cork_run-Delivering (written p ∷ es) all w d =
      let t = corked_write-Wrote p all w d in
      let y = corked_write put p w in
      let (results, rest) = cork_run-Delivering es (all ++ p) y.next t.next in
      (
        ap₂ (◌∷◌) (ap₂ (λ n e. (n, e)) t.counted t.ok) results,
        subst (λ l. Delivering l (cork_run put es y.next).1) (append_assoc all p (bytes_of es))
            rest,
      )
  cork_run-Delivering (timer ∷ es) all w d =
      cork_run-Delivering es all (timer_end put w) (timer_end-Delivering all w d)

  -- A new connection.
  pub timed_cork-Delivering : (t : T) → Sent t [] → Delivering [] (timed_cork t)
  timed_cork-Delivering t s = record {
    in_order = record { out = []; sent = s; whole = refl; no_error = refl; fits = omega arith };
    no_error = refl;
    nothing_kept = λ q. absurd (corked_still q);
  }
