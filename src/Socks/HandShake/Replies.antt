-- ===== src/Socks/HandShake/Replies.antt =====
-- What `HandShake` of m_socks/socks5.go returns and sends when the client's input is complete.
use miniproxygo.Common.{
  ℕ, ◌≤◌, ◌≡◌, refl, sym, ap, ◌∙◌, subst, inl, inr, Bool, Bool-cases, Option, none, some, List, [],
  ◌∷◌, ◌++◌, length, take, get_or, replicate, length-replicate, get_or-take, append-nil, arith,
  ◌==◌, if◌then◌else◌,
}
use miniproxygo.Io.{Error, Result, ok, err, Reader, Writer}
use miniproxygo.Io.Network.{Duplex}
use miniproxygo.Socks.Addr.{
  Net, fill, max_addr_len, read_addr_into, parse_addr, err_command_not_supported,
  info_udp_associate,
}
use miniproxygo.Socks.Addr.Wire.{Address, encode, IsAddress}
use miniproxygo.Socks.Addr.Reading.{fill-Extended, second_byte, read_addr_into-Reads}
use miniproxygo.Socks.HandShake.{
  read_head, write_reply, read_target, reply_udp, reply, hand_shake, connect_reply, method_reply,
  cmd_connect, cmd_udp, bytes_of, check-none, ◌>>=◌, >>=-ok,
}

-- The bytes that follow the method's reply, and the value returned, for each command. The answer to an
-- unsupported command is silence, where RFC 1928 asks for a reply with the code 7.
abbrev pub sent_for : Bool → List ℕ → ℕ → List ℕ
sent_for udp bound cmd =
    if cmd == cmd_connect
    then connect_reply
    else if cmd == cmd_udp
    then (if udp then 5 ∷ 0 ∷ 0 ∷ bound else [])
    else []

abbrev pub returned_for : Bool → ℕ → Address → Result (List ℕ × Option Error)
returned_for udp cmd x =
    if cmd == cmd_connect
    then ok (encode x, none)
    else if cmd == cmd_udp
    then (if udp then ok (encode x, some info_udp_associate) else err err_command_not_supported)
    else err err_command_not_supported

abbrev pub greeting : ℕ → List ℕ → List ℕ
greeting ver methods = ver ∷ length methods ∷ methods

abbrev pub request : ℕ → ℕ → ℕ → Address → List ℕ
request ver cmd rsv x = ver ∷ cmd ∷ rsv ∷ encode x

abbrev pub Answered :
    {S : Type 0}
    → (S → List ℕ → List ℕ → Type 0)
    → Bool
    → List ℕ
    → ℕ
    → Address
    → List ℕ
    → List ℕ
    → Result (List ℕ × Option Error) × S
    → Type 0
Answered Live udp bound cmd x rest out y =
    (y.0 ≡ returned_for udp cmd x) × Live y.1 rest ((out ++ method_reply) ++ sent_for udp bound cmd)

module _ {S : Type 0} (r : Reader S) (put : Writer S) (net : Net) (udp : Bool) (local_addr : List ℕ)
    (Live : S → List ℕ → List ℕ → Type 0) (D : Duplex r put Live) where
  -- A client's message that fits the buffer is read whole, and left in front of it.
  record Headed (q rest out b : List ℕ) (y : Result (List ℕ) × S) : Type 0 where
    buf : List ℕ
    accepted : y.0 ≡ ok buf
    front : take (length q) buf ≡ q
    same_size : length buf ≡ length b
    live : Live y.1 rest out

  read_head-Headed :
      (n : ℕ) (q rest out b : List ℕ) (s : S)
      → Live s (q ++ rest) out
      → n ≡ length q
      → n ≤ length b
      → Headed q rest out b (read_head r put net udp local_addr n b s)
  unfolding read_head
  read_head-Headed n q rest out b s live en room =
      let e =
        fill-Extended r (λ s bs. Live s bs out) (D.delivers out) 0 n [] q rest b s live refl en refl
          (omega arith) in
      record {
        buf = (fill r 0 n b s).buf;
        accepted = rw e.no_error refl;
        front = ap (λ m. take m (fill r 0 n b s).buf) (omega arith) ∙ e.front;
        same_size = e.same_size;
        live = e.rest_held;
      }

  nothing_sent : {s : S} {rest out : List ℕ} → Live s rest out → Live s rest (out ++ [])
  nothing_sent {s} {rest} {out} live = subst (Live s rest) (sym (append-nil out)) live

  reply_lem :
      (cmd : ℕ) (x : Address) (rest out : List ℕ) (s : S)
      → Live s rest out
      → ((reply r put net udp local_addr cmd (encode x) s).0 ≡ returned_for udp cmd x)
        × Live
            (reply r put net udp local_addr cmd (encode x) s).1
            rest
            (out ++ sent_for udp (bytes_of (parse_addr net local_addr)) cmd)
  unfolding reply reply_udp write_reply ◌>>=◌
  reply_lem cmd x rest out s live = elim (Bool-cases (cmd == cmd_connect)) [
    | inl connect ↦
        rw connect (let sent = D.sends s rest out connect_reply live in (rw sent.0 refl, sent.1))
    | inr other ↦ rw other (elim (Bool-cases (cmd == cmd_udp)) [
      | inl associate ↦ rw associate (elim (Bool-cases udp) [
        | inl on ↦ rw on (
            let sent = D.sends s rest out (5 ∷ 0 ∷ 0 ∷ bytes_of (parse_addr net local_addr)) live in
            (rw sent.0 refl, rw sent.0 sent.1))
        | inr off ↦ rw off (refl, nothing_sent live)
      ])
      | inr unknown ↦ rw unknown (refl, nothing_sent live)
    ])
  ]

  -- `HandShake` with a client that sends a greeting of any version with at most 255 methods and a
  -- request for a well-formed address, over a connection that fails no call, in any pieces. It
  -- sends the method reply. For CONNECT, and for UDP ASSOCIATE where that is enabled, it sends the
  -- reply to the command and returns the address, marked for UDP ASSOCIATE. For every other
  -- command, and for UDP ASSOCIATE where it is not enabled, it sends nothing more and returns
  -- `ErrCommandNotSupported`. What follows the request is left unread.
  pub hand_shake-Answered :
      (ver ver2 cmd rsv : ℕ) (methods : List ℕ) (x : Address) (rest out : List ℕ) (s : S)
      → length methods ≤ 255
      → IsAddress x
      → Live s (greeting ver methods ++ (request ver2 cmd rsv x ++ rest)) out
      → Answered Live udp
          (bytes_of (parse_addr net local_addr))
          cmd
          x
          rest
          out
          (hand_shake r put net udp local_addr s)
  unfolding hand_shake write_reply read_target
  hand_shake-Answered ver ver2 cmd rsv methods x rest out s few valid live =
      let input : List ℕ = request ver2 cmd rsv x ++ rest in
      let out1 = out ++ method_reply in
      let blank = replicate max_addr_len 0 in
      let size = length-replicate {A = ℕ} max_addr_len 0 in
      let h1 =
        read_head-Headed 2 (ver ∷ length methods ∷ []) (methods ++ input) out blank s live refl
          (omega (arith, size)) in
      let counted : get_or h1.buf 1 0 ≡ length methods =
        second_byte ver (length methods) h1.buf h1.front in
      let head = read_head r put net udp local_addr in
      let s1 = (head 2 blank s).1 in
      let h2 =
        read_head-Headed (get_or h1.buf 1 0) methods input out h1.buf s1 h1.live counted
          (omega (arith, counted, h1.same_size, size)) in
      let s2 = (head (get_or h1.buf 1 0) h1.buf s1).1 in
      let sent = D.sends s2 input out method_reply h2.live in
      let s3 = (put method_reply s2).next in
      let h3 =
        read_head-Headed 3 (ver2 ∷ cmd ∷ rsv ∷ []) (encode x ++ rest) out1 h2.buf s3 sent.1 refl
          (omega (arith, h1.same_size, h2.same_size, size)) in
      let s4 = (head 3 h2.buf s3).1 in
      let asked : get_or h3.buf 1 0 ≡ cmd =
        sym (get_or-take 3 1 0 h3.buf (omega arith)) ∙ ap (λ l. get_or l 1 0) h3.front in
      let reads =
        read_addr_into-Reads r (λ t bs. Live t bs out1) (D.delivers out1) x rest h3.buf s4 valid
          h3.live (omega (arith, h1.same_size, h2.same_size, h3.same_size, size)) in
      let s5 = (read_addr_into r h3.buf s4).next in
      let ran : hand_shake r put net udp local_addr s
          ≡ reply r put net udp local_addr cmd (encode x) s5 =
        >>=-ok (head 2 blank) _ s h1.buf h1.accepted
        ∙ >>=-ok (head (get_or h1.buf 1 0) h1.buf) _ s1 h2.buf h2.accepted
        ∙ >>=-ok (write_reply r put net udp local_addr method_reply) _ s2 (put method_reply s2).err
            refl
        ∙ check-none r put net udp local_addr (put method_reply s2).err _ s3 sent.0
        ∙ >>=-ok (head 3 h2.buf) _ s3 h3.buf h3.accepted
        ∙ >>=-ok (read_target r put net udp local_addr h3.buf) _ s4 (encode x)
            (rw reads.1 (ap ok reads.0))
        ∙ ap (λ c. reply r put net udp local_addr c (encode x) s5) asked in
      subst (Answered Live udp (bytes_of (parse_addr net local_addr)) cmd x rest out) (sym ran)
        (reply_lem cmd x rest out1 s5 reads.2)
