-- ===== src/Io.antt =====
-- Go's `io` as the program uses it: errors, readers, writers, `io.ReadFull`.
-- A byte is a number below 256, a byte slice a list of them. A method on a mutable object takes the
-- object's state and returns the new one; Go's pair `(n, err)` is the bytes and an optional error.
pub mod Full
pub mod Feeds
pub mod Network
pub mod Buffer
use miniproxygo.Common.{
  ℕ, zero, suc, ◌+◌, ◌*◌, ◌-◌, ◌≤◌, ◌<◌, ◌≡◌, ◌⊎◌, ◌++◌, Bool, true, false, Option, none, some,
  List, [], ◌∷◌, ◌&&◌, length, take, drop, if◌then◌else◌, leb, ltb, ◌==◌,
}

-- Every `error` value that the program makes or tests. `network n` stands for an error of the
-- operating system; `crashed` and `diverged` are no Go values: a
-- panic further down, and a loop of the model that ran out of fuel.
pub data Error : Type 0 where
  eof unexpected_eof short_buffer short_write : Error
  authentication_failed repeated_salt short_packet cipher_not_supported : Error
  key_size socks network : ℕ → Error
  crashed diverged : Error

-- Go's `(x, nil)` or `(_, err)`.
pub data Result (A : Type 0) : Type 0 where
  ok : A → Result A
  err : Error → Result A

abbrev pub and_then : {A B : Type 0} → Result A → (A → Result B) → Result B
and_then (ok a) f = f a
and_then (err e) f = err e

-- What a call of `Read` returns: the bytes that it put into the buffer, the error, the new state.
pub record Read (S : Type 0) : Type 0 where
  pub got : List ℕ
  pub err : Option Error
  pub next : S

-- An `io.Reader`: `read n` is `Read(p)` with `len(p) == n`. `budget` bounds the reads left to the end
-- of the input, and serves as fuel for the loops that read on.
pub record Reader (S : Type 0) : Type 0 where
  pub read : ℕ → S → Read S
  pub budget : S → ℕ

-- What a call of `Write` returns: the number of bytes taken, the error, the new state.
pub record Write (S : Type 0) : Type 0 where
  pub count : ℕ
  pub err : Option Error
  pub next : S

abbrev pub Writer : Type 0 → Type 0
Writer S = List ℕ → S → Write S

abbrev pub is_nil : Option Error → Bool
is_nil none = true
is_nil (some e) = false

-- `err == io.EOF`
abbrev pub is_eof : Error → Bool
is_eof Error.eof = true
is_eof _ = false

-- The error of `io.ReadAtLeast` once its loop has ended with `n` of the `want` bytes.
abbrev pub full_err : ℕ → ℕ → Option Error → Option Error
full_err want n none = none
full_err want n (some e) =
    if leb want n then none else if ltb 0 n && is_eof e then some Error.unexpected_eof else some e

module _ {S : Type 0} (r : Reader S) where
  -- The loop of `io.ReadAtLeast(r, buf, want)` with `acc` read so far; `k` more bytes are wanted.
  read_loop : ℕ → ℕ → List ℕ → S → Read S
  read_loop fuel zero acc s = record { got = acc; err = none; next = s }
  read_loop zero (suc k) acc s = record { got = acc; err = some Error.diverged; next = s }
  read_loop (suc fuel) (suc k) acc s =
      let x = r.read (suc k) s in
      let more = read_loop fuel (suc k - length x.got) (acc ++ x.got) x.next in
      if is_nil x.err then more else record { got = acc ++ x.got; err = x.err; next = x.next }

  -- `io.ReadFull(r, buf)` with `len(buf) == want`.
  unfoldable pub read_full : ℕ → S → Read S
  unfolding read_loop
  read_full want s =
      let x = read_loop (suc (r.budget s)) want [] s in
      record x { err = full_err want (length x.got) x.err }

-- The contract of a reader whose input is known: `Holds s bs` says that from state `s` on the reader
-- delivers the bytes `bs` and then the end of the input.
pub record Step {S : Type 0} (r : Reader S) (Holds : S → List ℕ → Type 0) (n : ℕ) (s : S)
    (bs : List ℕ) (x : Read S) : Type 0 where
  pub fits : length x.got ≤ n
  pub in_order : x.got ++ drop (length x.got) bs ≡ bs
  pub holds : Holds x.next (drop (length x.got) bs)
  pub verdict :
      (x.err ≡ none) × (r.budget x.next < r.budget s) ⊎ (x.err ≡ some Error.eof) × (bs ≡ [])

abbrev pub Delivers : {S : Type 0} → Reader S → (S → List ℕ → Type 0) → Type 0
Delivers {S} r Holds =
    (n : ℕ) (s : S) (bs : List ℕ) → 0 < n → Holds s bs → Step r Holds n s bs (r.read n s)

-- The contract of a writer that fails no call: `Sent t out` says that by state `t` the bytes `out`
-- have been passed on.
abbrev pub Sends : {T : Type 0} → Writer T → (T → List ℕ → Type 0) → Type 0
Sends {T} put Sent =
    (t : T) (out p : List ℕ)
    → Sent t out
    → ((put p t).err ≡ none) × ((put p t).count ≡ length p) × Sent (put p t).next (out ++ p)
