-- ===== src/Socks/Handler/Target.antt =====
-- The text that m_socks/handler.go dials is that of `Addr.String` in m_socks/socks5.go.
use miniproxygo.Common.{
  ℕ, zero, suc, ◌+◌, ◌-◌, ◌*◌, ◌≡◌, refl, sym, ap, ap₂, ◌∙◌, false, none, List, [], ◌∷◌, ◌++◌,
  length, take, replicate, get_or, slice, ltb, ge→ltb, length-append, take-append, append_assoc,
  arith,
}
use miniproxygo.Io.{Reader, Writer}
use miniproxygo.Internal.Outcome.{returns}
use miniproxygo.Socks.Strconv.{itoa}
use miniproxygo.Socks.Addr.{Net, port_at, to_string}
use miniproxygo.Socks.Addr.Wire.{Address, domain, ipv4, ipv6, encode, IsAddress}
use miniproxygo.Socks.HandShake.Replies.{request}
use miniproxygo.Socks.Handler.{Request, connect, command_of, resolve_as, resolve, target}

get_or_at : (pre rest : List ℕ) (y i : ℕ) → i ≡ length pre → get_or (pre ++ y ∷ rest) i 0 ≡ y
get_or_at [] rest y zero e = refl
get_or_at [] rest y (suc i) e = absurd (omega arith)
get_or_at (z ∷ pre) rest y zero e = absurd (omega arith)
get_or_at (z ∷ pre) rest y (suc i) e = get_or_at pre rest y i (omega arith)

-- The two bytes of the port, at the end of a message in front of other bytes.
port_bytes :
    (pre zeros : List ℕ) (p t n : ℕ)
    → n ≡ length pre + 2
    → get_or ((pre ++ p ∷ t ∷ []) ++ zeros) (n - 2) 0 * 256
        + get_or ((pre ++ p ∷ t ∷ []) ++ zeros) (n - 1) 0
      ≡ p * 256 + t
port_bytes pre zeros p t n e =
    let high =
      ap (λ l. get_or l (n - 2) 0) (append_assoc pre (p ∷ t ∷ []) zeros)
      ∙ get_or_at pre (t ∷ zeros) p (n - 2) (omega arith) in
    let low =
      ap (λ l. get_or l (n - 1) 0)
        (append_assoc pre (p ∷ t ∷ []) zeros ∙ sym (append_assoc pre (p ∷ []) (t ∷ zeros)))
      ∙ get_or_at (pre ++ p ∷ []) zeros t (n - 1) (omega (arith, length-append pre (p ∷ []))) in
    ap₂ (λ a b. a * 256 + b) high low

port_of :
    (names : Net) (pre : List ℕ) (p t i : ℕ)
    → i ≡ length pre
    → port_at names i (pre ++ p ∷ t ∷ []) ≡ itoa (p * 256 + t)
port_of names pre p t i e =
    let low =
      ap (λ l. get_or l (i + 1) 0) (sym (append_assoc pre (p ∷ []) (t ∷ [])))
      ∙ get_or_at (pre ++ p ∷ []) [] t (i + 1) (omega (arith, length-append pre (p ∷ []))) in
    ap₂ (λ a b. itoa (a * 256 + b)) (get_or_at pre (t ∷ []) p i e) low

-- The middle of a message.
front_of : (n : ℕ) (ip rest zeros : List ℕ) → n ≡ length ip → take n ((ip ++ rest) ++ zeros) ≡ ip
front_of n ip rest zeros e =
    ap (take n) (append_assoc ip rest zeros) ∙ take-append n ip (rest ++ zeros) e

module _ {C : Type 0} (r : Reader C) (put : Writer C) (names : Net) where
  -- The message in a buffer with other bytes behind it.
  resolve_as-to_string :
      (ver cmd rsv : ℕ) (y : Address) (zeros : List ℕ) (q : Request C)
      → IsAddress y
      → (q' : Request C) × (resolve_as r put names connect
            (request ver cmd rsv y ++ zeros)
            (length (request ver cmd rsv y))
            q
          ≡ returns q')
        × (target r put names q' ≡ to_string names (encode y))
        × (q'.conn ≡ q.conn)
        × (q'.version ≡ q.version)
  unfolding to_string
  resolve_as-to_string ver cmd rsv (domain host p t) zeros q valid =
      let msg = request ver cmd rsv (domain host p t) in
      let n = length msg in
      let size : n ≡ 5 + length host + 2 = omega (arith, length-append host (p ∷ t ∷ [])) in
      let whole : slice 5 (n - 2) (msg ++ zeros) ≡ host =
        front_of (n - 2 - 5) host (p ∷ t ∷ []) zeros (omega (arith, size)) in
      (
        record q {
          command = command_of cmd q.command;
          host = slice 5 (n - 2) (msg ++ zeros);
          port = itoa (get_or (msg ++ zeros) (n - 2) 0 * 256 + get_or (msg ++ zeros) (n - 1) 0);
        },
        rw (ge→ltb n 7 (omega (arith, size))) refl,
        ap₂ names.join_host_port
            (whole ∙ sym (take-append (2 + length host - 2) host (p ∷ t ∷ []) (omega arith)))
            (ap itoa (
                port_bytes (ver ∷ cmd ∷ rsv ∷ 3 ∷ length host ∷ host) zeros p t n
                  (omega (arith, size)))
              ∙ sym (port_of names (3 ∷ length host ∷ host) p t (2 + length host) (omega arith))),
        refl,
        refl,
      )
  resolve_as-to_string ver cmd rsv (ipv4 ip p t) zeros q valid =
      let msg = request ver cmd rsv (ipv4 ip p t) in
      let n = length msg in
      let size : n ≡ 4 + length ip + 2 = omega (arith, length-append ip (p ∷ t ∷ [])) in
      (
        record q {
          command = command_of cmd q.command;
          host = names.ip_string (slice 4 8 (msg ++ zeros));
          port = itoa (get_or (msg ++ zeros) (n - 2) 0 * 256 + get_or (msg ++ zeros) (n - 1) 0);
        },
        refl,
        ap₂ names.join_host_port
            (ap names.ip_string (
              front_of 4 ip (p ∷ t ∷ []) zeros (sym valid)
              ∙ sym (take-append 4 ip (p ∷ t ∷ []) (sym valid))))
            (ap itoa (port_bytes (ver ∷ cmd ∷ rsv ∷ 1 ∷ ip) zeros p t n (omega (arith, size)))
              ∙ sym (port_of names (1 ∷ ip) p t 5 (omega (arith, valid)))),
        refl,
        refl,
      )
  resolve_as-to_string ver cmd rsv (ipv6 ip p t) zeros q valid =
      let msg = request ver cmd rsv (ipv6 ip p t) in
      let n = length msg in
      let size : n ≡ 4 + length ip + 2 = omega (arith, length-append ip (p ∷ t ∷ [])) in
      (
        record q {
          command = command_of cmd q.command;
          host = names.ip_string (slice 4 20 (msg ++ zeros));
          port = itoa (get_or (msg ++ zeros) (n - 2) 0 * 256 + get_or (msg ++ zeros) (n - 1) 0);
        },
        refl,
        ap₂ names.join_host_port
            (ap names.ip_string (
              front_of 16 ip (p ∷ t ∷ []) zeros (sym valid)
              ∙ sym (take-append 16 ip (p ∷ t ∷ []) (sym valid))))
            (ap itoa (port_bytes (ver ∷ cmd ∷ rsv ∷ 4 ∷ ip) zeros p t n (omega (arith, size)))
              ∙ sym (port_of names (4 ∷ ip) p t 17 (omega (arith, valid)))),
        refl,
        refl,
      )

  request_size :
      (ver cmd rsv : ℕ) (y : Address) → IsAddress y → ltb (length (request ver cmd rsv y)) 3 ≡ false
  request_size ver cmd rsv (domain host p t) valid =
      ge→ltb _ 3 (omega (arith, length-append host (p ∷ t ∷ [])))
  request_size ver cmd rsv (ipv4 ip p t) valid =
      ge→ltb _ 3 (omega (arith, length-append ip (p ∷ t ∷ [])))
  request_size ver cmd rsv (ipv6 ip p t) valid =
      ge→ltb _ 3 (omega (arith, length-append ip (p ∷ t ∷ [])))

  -- Where one `Read` brings a whole request for a well-formed address, `Resolve(STATUS_CONNECT)`
  -- succeeds, and what `connect` dials is the text of the address, as `Addr.String` prints it. The version stays as it was.
  pub resolve-to_string :
      (ver cmd rsv : ℕ) (y : Address) (q : Request C)
      → IsAddress y
      → (r.read 1024 q.conn).err ≡ none
      → (r.read 1024 q.conn).got ≡ request ver cmd rsv y
      → (q' : Request C) × (resolve r put names connect q ≡ returns q')
        × (target r put names q' ≡ to_string names (encode y))
        × (q'.conn ≡ (r.read 1024 q.conn).next)
        × (q'.version ≡ q.version)
  unfolding resolve
  resolve-to_string ver cmd rsv y q valid fine whole =
      let n = length (request ver cmd rsv y) in
      let moved = record q { conn = (r.read 1024 q.conn).next } in
      let z = resolve_as-to_string ver cmd rsv y (replicate (1024 - n) 0) moved valid in
      (z.0, rw (fine, whole, request_size ver cmd rsv y valid) z.1, z.2, z.3, z.4)
