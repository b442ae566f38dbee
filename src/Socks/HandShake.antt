-- ===== src/Socks/HandShake.antt =====
-- `HandShake` of m_socks/socks5.go: the server's side of the SOCKS 5 negotiation.
pub mod Replies
use miniproxygo.Common.{
  ℕ, ◌+◌, ◌≡◌, refl, ap, Option, none, some, List, [], ◌∷◌, ◌++◌, get_or, replicate, if◌then◌else◌,
  ◌==◌, Bool, true, false,
}
use miniproxygo.Io.{Error, Result, ok, err, Reader, Write, Writer, is_nil}
use miniproxygo.Socks.Addr.{
  Net, Parsed, fill, read_addr_into, parse_addr, max_addr_len, err_command_not_supported,
  info_udp_associate,
}

abbrev pub cmd_connect : ℕ
cmd_connect = 1

abbrev pub cmd_udp : ℕ
cmd_udp = 3

-- Go's `[]byte{5, 0}`, and the replies to CONNECT and UDP ASSOCIATE.
abbrev pub method_reply : List ℕ
method_reply = 5 ∷ 0 ∷ []

abbrev pub connect_reply : List ℕ
connect_reply = 5 ∷ 0 ∷ 0 ∷ 1 ∷ 0 ∷ 0 ∷ 0 ∷ 0 ∷ 0 ∷ 0 ∷ []

-- A part of the function, on the connection's state.
abbrev pub Action : Type 0 → Type 0 → Type 0
Action S A = S → Result A × S

module _ {S : Type 0} where
  -- What follows a part of the function.
  go_on : {A B : Type 0} → (A → Action S B) → Result A → Action S B
  go_on f (ok x) s = f x s
  go_on f (err e) s = (err e, s)

  infixl 5 ◌>>=◌
  unfoldable pub ◌>>=◌ : {A B : Type 0} → Action S A → (A → Action S B) → Action S B
  unfolding go_on
  ◌>>=◌ m f s = go_on f (m s).0 (m s).1

  pub >>=-ok :
      {A B : Type 0} (m : Action S A) (f : A → Action S B) (s : S) (x : A)
      → (m s).0 ≡ ok x
      → (m >>= f) s ≡ f x (m s).1
  unfolding ◌>>=◌ go_on
  >>=-ok m f s x e = ap (λ a. go_on f a (m s).1) e

  abbrev pub pure : {A : Type 0} → A → Action S A
  pure a s = (ok a, s)

  abbrev pub fail : {A : Type 0} → Error → Action S A
  fail e s = (err e, s)

-- `listenAddr...`: a nil address adds nothing.
abbrev bytes_of : Option (List ℕ) → List ℕ
bytes_of none = []
bytes_of (some a) = a

module _ {S : Type 0} (r : Reader S) (put : Writer S) (net : Net) (udp_enabled : Bool)
    (local_addr : List ℕ) where
  abbrev pub result_of : {A : Type 0} → A → Option Error → Result A
  result_of a none = ok a
  result_of a (some e) = err e

  -- `io.ReadFull(rw, buf[:n])`
  unfoldable pub read_head : ℕ → List ℕ → Action S (List ℕ)
  read_head n buf s = let x = fill r 0 n buf s in (result_of x.buf x.err, x.next)

  -- `rw.Write(p)`; the number of bytes is not looked at.
  unfoldable pub write_reply : List ℕ → Action S (Option Error)
  write_reply p s = let x = put p s in (ok x.err, x.next)

  unfoldable pub read_target : List ℕ → Action S (List ℕ)
  read_target buf s = let x = read_addr_into r buf s in (result_of x.addr x.err, x.next)

  abbrev pub check : Option Error → Action S (List ℕ)
  check none = pure []
  check (some e) = fail e

  pub check-none :
      {A : Type 0} (e : Option Error) (f : List ℕ → Action S A) (s : S)
      → e ≡ none
      → (check e >>= f) s ≡ f [] s
  unfolding ◌>>=◌ go_on
  check-none e f s h = ap (λ e. (check e >>= f) s) h

  -- The `case CmdUDP`: the address is returned together with the error value that marks it.
  unfoldable pub reply_udp : List ℕ → Action S (List ℕ × Option Error)
  reply_udp addr = do
    e ← write_reply (5 ∷ 0 ∷ 0 ∷ bytes_of (parse_addr net local_addr))
    if is_nil e then pure (addr, some info_udp_associate) else fail err_command_not_supported

  -- The `switch cmd`.
  unfoldable pub reply : ℕ → List ℕ → Action S (List ℕ × Option Error)
  reply cmd addr =
      if cmd == cmd_connect
      then (write_reply connect_reply >>= λ e. pure (addr, e))
      else if cmd == cmd_udp
      then (if udp_enabled then reply_udp addr else fail err_command_not_supported)
      else fail err_command_not_supported

  -- `HandShake`: the address and the error that it returns.
  unfoldable pub hand_shake : Action S (List ℕ × Option Error)
  hand_shake = do
    head ← read_head 2 (replicate max_addr_len 0)
    methods ← read_head (get_or head 1 0) head
    e ← write_reply method_reply
    _ ← check e
    request ← read_head 3 methods
    addr ← read_target request
    reply (get_or request 1 0) addr
