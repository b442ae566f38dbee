-- ===== src/Server/Accept/Pauses.antt =====
-- How long the loop of `ServeLocal` pauses, what it counts, and when it ends.
use native.Mathlib.Nat.{pow-suc}
use miniproxygo.Common.{
  ℕ, zero, suc, ◌+◌, ◌*◌, ◌^◌, ◌<◌, ◌≡◌, refl, sym, ap, ap₂, ◌∙◌, subst, inl, inr, min, Bool, true,
  false, Bool-cases, Option-cases, Option, none, some, List, [], ◌∷◌, ◌++◌, All, arith,
  if◌then◌else◌, ◌≤◌,
}
use miniproxygo.Common.{ℤ, pos, int64, times, int64_small}
use miniproxygo.Server.Accept.{
  delay_calc, Accepted, conn, failed, is_timeout, is_temporary, Loop, last_pause, round,
  serve_local, unless_returned, loop_start,
}

-- The pause at the `k`-th retry: 5 ms, doubled each time, and a second at most; 0 before the first.
abbrev pub back_off : ℕ → ℕ
back_off zero = 0
back_off (suc k) = min (5 * 2 ^ k) 1000

two_pow_pos : (k : ℕ) → 0 < 2 ^ k
two_pow_pos zero = omega arith
two_pow_pos (suc k) = omega (arith, pow-suc 2 k, two_pow_pos k)

-- `delayCalc` goes from one pause to the next.
pub delay_calc-back_off : (k : ℕ) → delay_calc (back_off k) ≡ back_off (suc k)
unfolding delay_calc
delay_calc-back_off zero = refl
delay_calc-back_off (suc k) = ground (arith, pow-suc 2 k, two_pow_pos k)

-- The pauses of `k` retries, the last one first.
abbrev pub pauses : ℕ → List ℕ
pauses zero = []
pauses (suc k) = back_off (suc k) ∷ pauses k

-- The connections among what is accepted, and the errors after which the loop pauses.
abbrev pub conns : List Accepted → ℕ
conns [] = 0
conns (conn ∷ xs) = suc (conns xs)
conns (failed e kind ∷ xs) = conns xs

abbrev retries_of : Bool → ℕ → ℕ
retries_of true n = n
retries_of false n = suc n

abbrev pub retries : List Accepted → ℕ
retries [] = 0
retries (conn ∷ xs) = retries xs
retries (failed e kind ∷ xs) = retries_of (is_timeout kind) (retries xs)

-- No error ends the loop.
abbrev pub Passes : Accepted → Type 0
Passes conn = Unit
Passes (failed e kind) = (is_timeout kind ≡ false) → is_temporary kind ≡ true

-- The loop waits for the next `Accept`, `n` connections and `k` retries behind its start.
pub record Waiting (n k : ℕ) (l : Loop) : Type 0 where
  pub not_returned : l.returned ≡ none
  pub counted : l.req_num ≡ n
  pub slept : l.slept ≡ pauses k
  pub delay : l.temp_delay ≡ back_off k

shift : {n n' k k' : ℕ} (l : Loop) → n ≡ n' → k ≡ k' → Waiting n k l → Waiting n' k' l
shift {n} {n'} {k} {k'} l e h w = subst (λ m. Waiting m k' l) e (subst (λ m. Waiting n m l) h w)

module _ (shutting_down : Bool) (shutdown_timeout : ℤ) where
  goes_on :
      (x : Accepted) (xs : List Accepted) (l : Loop)
      → l.returned ≡ none
      → serve_local shutting_down shutdown_timeout (x ∷ xs) l
        ≡ serve_local shutting_down shutdown_timeout xs (round shutting_down shutdown_timeout x l)
  unfolding serve_local
  goes_on x xs l e =
      ap
        (λ m. unless_returned m l (
          serve_local shutting_down shutdown_timeout xs (round shutting_down shutdown_timeout x l)))
        e

  round-Waiting :
      (x : Accepted) (n k : ℕ) (l : Loop)
      → Passes x
      → Waiting n k l
      → Waiting
          (n + conns (x ∷ []))
          (k + retries (x ∷ []))
          (round shutting_down shutdown_timeout x l)
  unfolding round
  round-Waiting conn n k l p w = record {
    not_returned = w.not_returned;
    counted = ap (λ m. m + 1) w.counted;
    slept = w.slept ∙ ap pauses (omega arith);
    delay = w.delay ∙ ap back_off (omega arith);
  }
  round-Waiting (failed e kind) n k l p w = elim (Bool-cases (is_timeout kind)) [
    | inl timeout ↦ rw timeout (shift l (omega arith) (omega arith) w)
    | inr other ↦
        rw (other, p other)
          (shift {n = n} {k = suc k} _ (omega arith) (omega arith) (record {
            not_returned = w.not_returned;
            counted = w.counted;
            slept = ap₂ (◌∷◌) paused w.slept;
            delay = paused;
          }))
  ]
    where
      paused : delay_calc l.temp_delay ≡ back_off (suc k)
      paused = ap delay_calc w.delay ∙ delay_calc-back_off k

  together :
      (x : Accepted) (xs : List Accepted)
      → (conns (x ∷ []) + conns xs ≡ conns (x ∷ xs))
        × (retries (x ∷ []) + retries xs ≡ retries (x ∷ xs))
  together conn xs = (omega arith, omega arith)
  together (failed e kind) xs = elim (Bool-cases (is_timeout kind)) [
    | inl timeout ↦ (omega arith, rw timeout (omega arith))
    | inr other ↦ (omega arith, rw other (omega arith))
  ]

  -- Without an error that ends the loop: every connection is counted, and the loop has paused once
  -- for every temporary error, 5 ms at the first, twice as long at each further one, and a second at
  -- most, whether or not connections came in between.
  pub serve_local-Waiting :
      (xs : List Accepted) (n k : ℕ) (l : Loop)
      → All Passes xs
      → Waiting n k l
      → Waiting (n + conns xs) (k + retries xs) (serve_local shutting_down shutdown_timeout xs l)
  unfolding serve_local
  serve_local-Waiting [] n k l ps w = shift l (omega arith) (omega arith) w
  serve_local-Waiting (x ∷ xs) n k l ps w =
      let (c, r) = together x xs in
      let rest =
        serve_local-Waiting xs (n + conns (x ∷ [])) (k + retries (x ∷ []))
          (round shutting_down shutdown_timeout x l) ps.1 (round-Waiting x n k l ps.0 w) in
      subst (Waiting (n + conns (x ∷ xs)) (k + retries (x ∷ xs)))
        (sym (goes_on x xs l w.not_returned)) (shift _ (omega (arith, c)) (omega (arith, r)) rest)

  after_return :
      (ys : List Accepted) (l : Loop) (e : ℕ)
      → l.returned ≡ some e
      → serve_local shutting_down shutdown_timeout ys l ≡ l
  unfolding serve_local
  after_return [] l e h = refl
  after_return (y ∷ ys) l e h =
      ap
        (λ m. unless_returned m l (
          serve_local shutting_down shutdown_timeout ys (round shutting_down shutdown_timeout y l)))
        h

  serve_local-append :
      (xs ys : List Accepted) (l : Loop)
      → serve_local shutting_down shutdown_timeout (xs ++ ys) l
        ≡ serve_local shutting_down shutdown_timeout ys
            (serve_local shutting_down shutdown_timeout xs l)
  unfolding serve_local
  serve_local-append [] ys l = refl
  serve_local-append (x ∷ xs) ys l = elim (Option-cases l.returned) [
    | inl none_yet ↦
        goes_on x (xs ++ ys) l none_yet
        ∙ serve_local-append xs ys _
        ∙ ap (serve_local shutting_down shutdown_timeout ys) (sym (goes_on x xs l none_yet))
    | inr (e, h) ↦
        after_return (x ∷ (xs ++ ys)) l e h
        ∙ sym (after_return ys l e h)
        ∙ ap (serve_local shutting_down shutdown_timeout ys) (sym (after_return (x ∷ xs) l e h))
  ]

  -- The first error of `Accept` that is neither a timeout nor temporary ends `ServeLocal`, which
  -- returns it; the connections before it are counted, and what would come behind it is not
  -- accepted. The loop has paused once for every temporary error before it. While the server shuts
  -- down it sleeps once more before it returns, for the timeout of the shutdown times a second in
  -- int64: for a timeout of 0 to 9223372036 seconds that is the timeout.
  pub serve_local_returns :
      (xs ys : List Accepted) (e : ℕ) (kind : Option (Bool × Bool))
      → All Passes xs
      → is_timeout kind ≡ false
      → is_temporary kind ≡ false
      → let l = serve_local shutting_down shutdown_timeout (xs ++ failed e kind ∷ ys) loop_start in
        (l.returned ≡ some e)
        × (l.req_num ≡ conns xs)
        × (l.slept ≡ pauses (retries xs))
        × (l.before_return
            ≡ (if shutting_down then some (int64 (times shutdown_timeout 1000000000)) else none))
        × ((n : ℕ)
            → shutting_down ≡ true
            → shutdown_timeout ≡ pos n
            → n ≤ 9223372036
            → l.before_return ≡ some (pos (n * 1000000000)))
  serve_local_returns xs ys e kind ps no_timeout no_retry =
      let served =
        serve_local-Waiting xs 0 0 loop_start ps
          (record { not_returned = refl; counted = refl; slept = refl; delay = refl }) in
      let l = serve_local shutting_down shutdown_timeout xs loop_start in
      let ended : Loop = record l {
        returned = some e;
        before_return = last_pause shutting_down shutdown_timeout;
      } in
      let stop : round shutting_down shutdown_timeout (failed e kind) l ≡ ended =
        unfold round in rw (no_timeout, no_retry) refl in
      let run : serve_local shutting_down shutdown_timeout (xs ++ failed e kind ∷ ys) loop_start
          ≡ ended =
        serve_local-append xs (failed e kind ∷ ys) loop_start
        ∙ goes_on (failed e kind) ys l served.not_returned
        ∙ ap (serve_local shutting_down shutdown_timeout ys) stop
        ∙ after_return ys ended e refl in
      (
        ap (λ z. z.returned) run,
        ap (λ z. z.req_num) run ∙ served.counted ∙ omega arith,
        ap (λ z. z.slept) run ∙ served.slept ∙ ap pauses (omega arith),
        ap (λ z. z.before_return) run,
        λ n down secs small.
            ap (λ z. z.before_return) run
            ∙ rw (down, secs) (ap some (int64_small (n * 1000000000) (omega arith))),
      )
