-- ===== src/Shadow/Reader/WriteTo.antt =====
-- `WriteTo` of the `reader` in m_shadow/stream.go, which `io.Copy` uses: decrypts to the end of the
-- input.
use miniproxygo.Common.{
  ℕ, zero, suc, ◌+◌, ◌-◌, ◌<◌, ◌≤◌, ◌≡◌, refl, sym, ap, ◌∙◌, subst, inl, inr, true, false,
  Bool-cases, Option, none, some, List, [], ◌∷◌, ◌++◌, length, take, drop, slice, ltb,
  if◌then◌else◌, ◌==◌, ltb→lt, ltb→ge, ge→ltb, append-nil, append_assoc, length-append, length-take,
  length-drop, All, arith,
}
use miniproxygo.Io.{Error, Reader, Writer, Delivers, Sends, is_nil}
use miniproxygo.Shadow.Aead.{Aead, IsAead}
use miniproxygo.Shadow.Nonce.{increment, length-increment}
use miniproxygo.Shadow.Frame.{concat, frames, IsPayload, payload_size_mask}
use miniproxygo.Shadow.Writer.{forget_eof}
use miniproxygo.Shadow.Reader.{Opener, read_record}
use miniproxygo.Shadow.Reader.Record.{read_record-Recovered, read_record_end}
use miniproxygo.Shadow.Reader.Stream.{Carries, slice_none}

-- The result of `WriteTo`, with the reader and the writer behind it.
pub record Drained (S T : Type 0) : Type 0 where
  pub total : ℕ
  pub err : Option Error
  pub next : Opener S
  pub sink : T

module _ (a : Aead) {S T : Type 0} (r : Reader S) (put : Writer T) where
  -- The first loop: a writer may take only a part of `leftover` and report no error. Each round
  -- that takes nothing uses up fuel.
  unfoldable pub flush_leftover : ℕ → ℕ → Opener S → T → Drained S T
  flush_leftover zero n o t = record { total = n; err = some Error.diverged; next = o; sink = t }
  flush_leftover (suc fuel) n o t =
      let y = put (slice o.left_lo o.left_hi o.buf) t in
      let o' = record o { left_lo = o.left_lo + y.count } in
      let more = flush_leftover fuel (n + y.count) o' y.next in
      if ltb o.left_lo o.left_hi
      then if is_nil y.err
        then more
        else record { total = n + y.count; err = y.err; next = o'; sink = y.next }
      else record { total = n; err = none; next = o; sink = t }

  -- The second loop. What the writer did not take of a record is lost if it reports no error.
  unfoldable pub drain : ℕ → ℕ → Opener S → T → Drained S T
  drain zero n o t = record { total = n; err = some Error.diverged; next = o; sink = t }
  drain (suc fuel) n o t =
      let x = read_record a r o in
      let y = put (take x.size x.next.buf) t in
      let after_write = drain fuel (n + y.count) x.next y.next in
      let after_nothing = drain fuel n x.next t in
      if x.size == 0
      then if is_nil x.err
        then after_nothing
        else record { total = n; err = forget_eof x.err; next = x.next; sink = t }
      else if is_nil y.err
      then if is_nil x.err
        then after_write
        else record { total = n + y.count; err = forget_eof x.err; next = x.next; sink = y.next }
      else record { total = n + y.count; err = y.err; next = x.next; sink = y.next }

  -- `WriteTo`
  unfoldable pub write_to : Opener S → T → Drained S T
  write_to o t =
      let f = flush_leftover (suc (o.left_hi - o.left_lo)) 0 o t in
      let d = drain (suc (r.budget f.next.source)) f.total f.next f.sink in
      if is_nil f.err then d else f

-- All of `bs` has been written, on top of `n` bytes before it.
pub record Copied {S T : Type 0} (Sent : T → List ℕ → Type 0) (n : ℕ) (bs out : List ℕ)
    (x : Drained S T) : Type 0 where
  pub counted : x.total ≡ n + length bs
  pub no_error : x.err ≡ none
  pub sent : Sent x.sink (out ++ bs)

nonzero : (k : ℕ) → 0 < k → (k == 0) ≡ false
nonzero k h = ground arith

-- Some more bytes, and then the rest.
extend :
    {S T : Type 0} {Sent : T → List ℕ → Type 0} {n k : ℕ} (p : List ℕ) {bs out : List ℕ}
    {x : Drained S T}
    → k ≡ length p
    → Copied Sent (n + k) bs (out ++ p) x
    → Copied Sent n (p ++ bs) out x
extend {Sent} {n} {k} p {bs} {out} {x} e c = record {
  counted = omega (arith, c.counted, length-append p bs);
  no_error = c.no_error;
  sent = subst (Sent x.sink) (append_assoc out p bs) c.sent;
}

module _ (a : Aead) (laws : IsAead a) {S T : Type 0} (r : Reader S) (put : Writer T)
    (Holds : S → List ℕ → Type 0) (Sent : T → List ℕ → Type 0) (D : Delivers r Holds)
    (O : Sends put Sent) where
  drain-Copied :
      (fuel n : ℕ) (rs : List (List ℕ)) (o : Opener S) (t : T) (out : List ℕ)
      → r.budget o.source < fuel
      → All IsPayload rs
      → Holds o.source (frames a o.nonce rs)
      → length o.nonce ≡ a.nonce_size
      → length o.buf ≡ payload_size_mask + a.overhead
      → Sent t out
      → Copied Sent n (concat rs) out (drain a r put fuel n o t)
  unfolding drain frames
  drain-Copied zero n rs o t out b ps held sized room s = absurd (omega arith)
  drain-Copied (suc fuel) n [] o t out b ps held sized room s =
      let (ended, empty, source, nonce, buf, lo, hi) = read_record_end a laws r Holds D o held in
      rw (empty, ended)
        (record {
          counted = omega arith;
          no_error = refl;
          sent = subst (Sent t) (sym (append-nil out)) s;
        })
  drain-Copied (suc fuel) n (p ∷ rs) o t out b ps held sized room s =
      let x = read_record a r o in
      let got =
        read_record-Recovered a laws r Holds D o p (frames a (increment (increment o.nonce)) rs)
          ps.0 sized room held in
      let plain : take x.size x.next.buf ≡ p = ap (λ m. take m x.next.buf) got.size ∙ got.payload in
      let y = put (take x.size x.next.buf) t in
      let w = O t out (take x.size x.next.buf) s in
      let counted : y.count ≡ length p = w.1 ∙ ap length plain in
      let not_empty : (x.size == 0) ≡ false = rw got.size (nonzero (length p) ps.0.0) in
      let rest =
        drain-Copied fuel (n + y.count) rs x.next y.next (out ++ p) (omega (arith, got.spent)) ps.1
          (subst (λ m. Holds x.next.source (frames a m rs)) (sym got.nonce_moved) got.rest_held)
          (ap length got.nonce_moved
            ∙ length-increment (increment o.nonce)
            ∙ length-increment o.nonce
            ∙ sized)
          (got.same_size ∙ room) (subst (λ l. Sent y.next (out ++ l)) plain w.2) in
      rw (not_empty, w.0, got.no_error) (extend p counted rest)

  -- What the first loop leaves: `l` has been written, and the reader stands where it did.
  record Flushed (n : ℕ) (l out : List ℕ) (o : Opener S) (f : Drained S T) : Type 0 where
    counted : f.total ≡ n + length l
    no_error : f.err ≡ none
    sent : Sent f.sink (out ++ l)
    same_source : f.next.source ≡ o.source
    same_nonce : f.next.nonce ≡ o.nonce
    same_buf : f.next.buf ≡ o.buf

  nothing_left :
      (fuel n : ℕ) (o : Opener S) (t : T) (out : List ℕ)
      → 0 < fuel
      → o.left_hi ≤ o.left_lo
      → Sent t out
      → Flushed n (slice o.left_lo o.left_hi o.buf) out o (flush_leftover a r put fuel n o t)
  unfolding flush_leftover
  nothing_left zero n o t out pos used s = absurd (omega arith)
  nothing_left (suc fuel) n o t out pos used s =
      let empty : slice o.left_lo o.left_hi o.buf ≡ [] =
        sym (append-nil _) ∙ slice_none o.left_lo o.left_hi o.buf [] used in
      rw (ge→ltb o.left_lo o.left_hi used, empty)
        (record {
          counted = omega arith;
          no_error = refl;
          sent = subst (Sent t) (sym (append-nil out)) s;
          same_source = refl;
          same_nonce = refl;
          same_buf = refl;
        })

  flush_once :
      (fuel n : ℕ) (o : Opener S) (t : T)
      → ltb o.left_lo o.left_hi ≡ true
      → (put (slice o.left_lo o.left_hi o.buf) t).err ≡ none
      → flush_leftover a r put (suc fuel) n o t
        ≡ flush_leftover a r put fuel
            (n + (put (slice o.left_lo o.left_hi o.buf) t).count)
            (record o { left_lo = o.left_lo + (put (slice o.left_lo o.left_hi o.buf) t).count })
            (put (slice o.left_lo o.left_hi o.buf) t).next
  unfolding flush_leftover
  flush_once fuel n o t left ok = rw (left, ok) refl

  flush_leftover-Flushed :
      (o : Opener S) (t : T) (out : List ℕ)
      → o.left_hi ≤ length o.buf
      → Sent t out
      → Flushed 0
          (slice o.left_lo o.left_hi o.buf)
          out
          o
          (flush_leftover a r put (suc (o.left_hi - o.left_lo)) 0 o t)
  flush_leftover-Flushed o t out inside s = elim (Bool-cases (ltb o.left_lo o.left_hi)) [
    | inr used ↦
        nothing_left (suc (o.left_hi - o.left_lo)) 0 o t out (omega arith) (ltb→ge _ _ used) s
    | inl left ↦
        let l = slice o.left_lo o.left_hi o.buf in
        let y = put l t in
        let w = O t out l s in
        let size : length l ≡ o.left_hi - o.left_lo = omega (
          arith,
          length-take (o.left_hi - o.left_lo) (drop o.left_lo o.buf),
          length-drop o.left_lo o.buf,
        ) in
        let o' = record o { left_lo = o.left_lo + y.count } in
        let rest =
          nothing_left (o.left_hi - o.left_lo) (0 + y.count) o' y.next (out ++ l)
            (omega (arith, ltb→lt _ _ left)) (omega (arith, w.1, size)) w.2 in
        let empty : slice (o.left_lo + y.count) o.left_hi o.buf ≡ [] =
          sym (append-nil _)
          ∙ slice_none (o.left_lo + y.count) o.left_hi o.buf [] (omega (arith, w.1, size)) in
        subst (Flushed 0 l out o) (sym (flush_once (o.left_hi - o.left_lo) 0 o t left w.0))
          (record {
            counted = omega (arith, rest.counted, ap length empty, w.1);
            no_error = rest.no_error;
            sent =
                subst (Sent _) (ap (λ e. (out ++ l) ++ e) empty ∙ append-nil (out ++ l)) rest.sent;
            same_source = rest.same_source;
            same_nonce = rest.same_nonce;
            same_buf = rest.same_buf;
          })
  ]

  -- `WriteTo` over a source that carries `bs`, into a sink that fails no call, writes all of `bs`,
  -- counts it and reports no error.
  pub write_to-Copied :
      (o : Opener S) (bs : List ℕ) (t : T) (out : List ℕ)
      → Carries a Holds o bs
      → Sent t out
      → Copied Sent 0 bs out (write_to a r put o t)
  unfolding write_to
  write_to-Copied o bs t out c s =
      let f = flush_leftover-Flushed o t out c.left_fits s in
      let x = flush_leftover a r put (suc (o.left_hi - o.left_lo)) 0 o t in
      let l = slice o.left_lo o.left_hi o.buf in
      let y : Drained S T = drain a r put (suc (r.budget x.next.source)) x.total x.next x.sink in
      let rest =
        drain-Copied (suc (r.budget x.next.source)) x.total c.records x.next x.sink (out ++ l)
          (omega arith) c.payloads (rw (f.same_source, f.same_nonce) c.ciphertext)
          (ap length f.same_nonce ∙ c.nonce_fits) (ap length f.same_buf ∙ c.buf_fits) f.sent in
      rw f.no_error (
        subst (λ m. Copied Sent 0 m out y) c.plain
          (extend l refl
            (subst (λ k. Copied Sent k (concat c.records) (out ++ l) y) f.counted rest)))
