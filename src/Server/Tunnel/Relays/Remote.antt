-- ===== src/Server/Tunnel/Relays/Remote.antt =====
-- The remote half of m_server/socks_server.go from the first byte through `relay`.
use miniproxygo.Common.{
  ℕ, ◌+◌, ◌<◌, ◌≡◌, refl, sym, ap, ap₂, ◌∙◌, subst, inr, Bool, true, List, [], ◌++◌, length, arith,
}
use miniproxygo.Io.{Error, Result, ok, Reader, Writer}
use miniproxygo.Io.Network.{Duplex}
use miniproxygo.Internal.Filter.{Filter}
use miniproxygo.Internal.SaltFilter.{Floats, Env}
use miniproxygo.Shadow.Aead.{Aead, IsAead}
use miniproxygo.Shadow.Cipher.{Cipher}
use miniproxygo.Shadow.Conn.{StreamConn, conn_budget}
use miniproxygo.Shadow.Conn.Source.{conn_reader}
use miniproxygo.Shadow.Conn.Both.{Both}
use miniproxygo.Shadow.Conn.Both.Begin.{Starting, Expecting, Expecting-Delivers, Expecting-Both}
use miniproxygo.Socks.Addr.{Net, read_addr, to_string}
use miniproxygo.Socks.Addr.Wire.{Address, domain, ipv4, ipv6, encode, IsAddress}
use miniproxygo.Socks.Addr.Reading.{read_addr-encode}
use miniproxygo.Server.Relay.{Relay, relay_start, Reach}
use miniproxygo.Server.Relay.Encrypted.{write_to_round, read_from_round}
use miniproxygo.Server.Tunnel.{connects, remote_conn, read_target, dial_target}
use miniproxygo.Server.Tunnel.Relays.{Relayed, Reach-Relayed}

encode_some : (y : Address) → 0 < length (encode y)
encode_some (domain host p t) = omega arith
encode_some (ipv4 ip p t) = omega arith
encode_some (ipv6 ip p t) = omega arith

module _ {S Q R F C : Type 0} (net : Reader S) (put : Writer S) (rand : Reader Q) (ciph : Cipher)
    (x : Floats R) (f : Filter R F) (env : Env) (Live : S → List ℕ → List ℕ → Type 0)
    (DS : Duplex net put Live) (a : Aead) (laws : IsAead a) (a' : Aead) (laws' : IsAead a')
    (salt : List ℕ) (r : Reader C) (cput : Writer C) (LiveC : C → List ℕ → List ℕ → Type 0)
    (DC : Duplex r cput LiveC) (read_timeout : ℕ) (dl : Error) where
  -- The remote half gets as far as `relay`.
  pub remote_conn-Both :
      (names : Net) (dial : List ℕ → Result C) (target : C) (y : Address) (rest : List ℕ)
      (sc : StreamConn S Q F)
      → IsAddress y
      → Starting net put rand ciph x f env Live DS a laws a' laws' salt sc (encode y ++ rest)
      → dial (to_string names (encode y)) ≡ ok target
      → (sc' : StreamConn S Q F) × (remote_conn net put rand ciph x f env names dial sc
          ≡ connects target sc')
        × Both net put rand ciph x f env Live a a' salt sc' rest []
  unfolding remote_conn
  remote_conn-Both names dial target y rest sc valid start answers =
      let rd = conn_reader net put rand ciph x f env in
      let whole = encode y ++ rest in
      let got =
        read_addr-encode rd (Expecting net put rand ciph x f env Live DS a laws a' laws' salt whole)
          (Expecting-Delivers net put rand ciph x f env Live DS a laws a' laws' salt whole) y rest
          sc valid (inr (start, refl)) in
      let sc' = (read_addr rd sc).next in
      (
        sc',
        ap₂ (λ t e. read_target net put rand ciph x f env names dial t e sc') got.0 got.1
            ∙ ap (λ t. dial_target net put rand ciph x f env names dial t sc') answers,
        Expecting-Both net put rand ciph x f env Live DS a laws a' laws' salt (encode y) rest sc'
            (encode_some y) got.2,
      )

  -- The remote half, over connections that fail no call. A salt arrives that has a cipher and is new, and
  -- behind it a stream that carries a well-formed address and `rest`; a salt of its own is ready, has a
  -- cipher and can be recorded; the target of that address answers the dial, and its input is `back`.
  -- If the half has come to `relay`, then in every state that the two copies can reach together, by
  -- `WriteTo` and `ReadFrom` of the encrypted connection, the target has been given a beginning of
  -- `rest`, what has gone out encrypted is a beginning of `back`, and what is left of both is still to be
  -- read. The steps are at most as many as the bounds on the reads left on both sides, and two more; where no step is
  -- left `relay` returns nil, with both directions copied whole if there is no read timeout, and with
  -- one of them at least if there is.
  pub remote_conn-Relayed :
      (is_deadline : Error → Bool) (names : Net) (dial : List ℕ → Result C) (target t : C)
      (y : Address) (rest back : List ℕ) (sc sc' : StreamConn S Q F) (n : ℕ)
      (s : Relay (StreamConn S Q F) C)
      → IsAddress y
      → Starting net put rand ciph x f env Live DS a laws a' laws' salt sc (encode y ++ rest)
      → dial (to_string names (encode y)) ≡ ok target
      → LiveC target back []
      → is_deadline dl ≡ true
      → remote_conn net put rand ciph x f env names dial sc ≡ connects t sc'
      → Reach
          (write_to_round net put rand ciph x f env cput)
          (read_from_round net put rand ciph x f env r)
          read_timeout
          dl
          (relay_start sc' t)
          n
          s
      → Relayed net put rand ciph x f env Live DS a laws a' laws' salt r cput LiveC DC read_timeout
          dl is_deadline rest [] back []
          (conn_budget net sc' + r.budget t + 2)
          n
          s
  remote_conn-Relayed is_deadline names dial target t y rest back sc sc' n s valid start answers
        live d ran reached =
      let (sc1, ran1, both) = remote_conn-Both names dial target y rest sc valid start answers in
      let e : connects target sc1 ≡ connects t sc' = sym ran1 ∙ ran in
      let same : target ≡ t = cc (e) in
      let same' : sc1 ≡ sc' = cc (e) in
      Reach-Relayed net put rand ciph x f env Live DS a laws a' laws' salt r cput LiveC DC
        read_timeout dl is_deadline rest [] back [] sc' t n s d
        (subst (λ z. Both net put rand ciph x f env Live a a' salt z rest []) same' both)
        (subst (λ z. LiveC z back []) same live) reached
