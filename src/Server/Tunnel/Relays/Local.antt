-- ===== src/Server/Tunnel/Relays/Local.antt =====
-- The local half of m_server/socks_server.go from the greeting through `relay`.
use miniproxygo.Common.{ℕ, ◌+◌, ◌≤◌, ◌≡◌, sym, ap, ◌∙◌, subst, Bool, true, List, [], ◌++◌, length}
use miniproxygo.Io.{Error, ok, Reader, Writer}
use miniproxygo.Io.Network.{Duplex}
use miniproxygo.Internal.Outcome.{Outcome, returns, ◌>>=◌}
use miniproxygo.Internal.Filter.{Filter}
use miniproxygo.Internal.SaltFilter.{Floats, Env, Salts}
use miniproxygo.Shadow.Aead.{Aead, IsAead}
use miniproxygo.Shadow.Cipher.{Cipher}
use miniproxygo.Shadow.Conn.{StreamConn, new_conn, conn_budget}
use miniproxygo.Shadow.Conn.Both.{Both}
use miniproxygo.Shadow.Conn.Both.Begin.{Leading, Leading-Both}
use miniproxygo.Socks.Addr.{Net}
use miniproxygo.Socks.Addr.Wire.{Address, encode, IsAddress}
use miniproxygo.Socks.HandShake.{hand_shake, connect_reply, method_reply}
use miniproxygo.Socks.HandShake.Replies.{hand_shake-Answered, greeting, request}
use miniproxygo.Server.Relay.{Relay, relay_start, Reach}
use miniproxygo.Server.Relay.Encrypted.{write_to_round, read_from_round}
use miniproxygo.Server.Tunnel.{LocalEnd, proxies, local_conn, got_address, sent_target}
use miniproxygo.Server.Tunnel.Relays.{Relayed, Reach-Relayed}

module _ {S Q R F C : Type 0} (net : Reader S) (put : Writer S) (rand : Reader Q) (ciph : Cipher)
    (x : Floats R) (f : Filter R F) (env : Env) (Live : S → List ℕ → List ℕ → Type 0)
    (DS : Duplex net put Live) (a : Aead) (laws : IsAead a) (a' : Aead) (laws' : IsAead a')
    (salt : List ℕ) (r : Reader C) (cput : Writer C) (LiveC : C → List ℕ → List ℕ → Type 0)
    (DC : Duplex r cput LiveC) (read_timeout : ℕ) (dl : Error) where
  -- The local half gets as far as `relay`.
  local_conn-Both :
      (names : Net) (udp : Bool) (local_addr : List ℕ) {N : Type 0} (cork : N → S) (rc : N)
      (random : Q) (salts : Salts F) (ver ver2 rsv : ℕ) (methods : List ℕ) (y : Address)
      (rest back : List ℕ) (c : C)
      → length methods ≤ 255
      → IsAddress y
      → LiveC c (greeting ver methods ++ (request ver2 1 rsv y ++ rest)) []
      → Leading net put rand ciph x f env Live DS a laws a' laws' salt
          (new_conn (cork rc) random salts)
          back
      → (c' : C) × (sc : StreamConn S Q F) × (local_conn net put rand ciph x f env r cput names udp
            local_addr cork
            (ok rc)
            random
            salts
            c
          ≡ returns (proxies (encode y) c' sc))
        × LiveC c' rest (method_reply ++ connect_reply)
        × Both net put rand ciph x f env Live a a' salt sc back (encode y)
  unfolding local_conn
  local_conn-Both names udp local_addr cork rc random salts ver ver2 rsv methods y rest back c few
        valid live leading =
      let answered =
        hand_shake-Answered r cput names udp local_addr LiveC DC ver ver2 1 rsv methods y rest [] c
          few valid live in
      let c' = (hand_shake r cput names udp local_addr c).1 in
      let (w, wrote, no_error, both) =
        Leading-Both net put rand ciph x f env Live DS a laws a' laws' salt
          (new_conn (cork rc) random salts) (encode y) back leading in
      (
        c',
        w.next,
        ap
              (got_address net put rand ciph x f env r cput names udp local_addr cork (ok rc) random
                salts c')
              answered.0
            ∙ ap (λ m. m >>= λ z. returns (sent_target net put rand ciph x f env (encode y) c' z))
                wrote
            ∙ ap
                (λ e.
                  returns
                    (sent_target net put rand ciph x f env (encode y) c' (record w { err = e })))
                no_error,
        answered.1,
        both,
      )

  -- The local half, over connections that fail no call. A client greets with at most 255 methods, asks
  -- to CONNECT to a well-formed address and sends `rest`; the remote half answers the dial; the next
  -- random salt has a cipher and can be recorded, and the input from there is another salt that has a
  -- cipher and is new behind that one, and a stream that carries `back`. If the half has come to `relay`,
  -- then in every state that the two copies can reach together, by `WriteTo` and `ReadFrom` of the
  -- encrypted connection, what has gone out encrypted is the address and a beginning of `rest`, the
  -- client has been given the two replies and a beginning of `back`, and what is left of both is still
  -- to be read. The steps are at most as many as the bounds on the reads left on both sides, and two more; where no
  -- step is left `relay` returns nil, with both directions copied whole if there is no read timeout, and
  -- with one of them at least if there is.
  pub local_conn-Relayed :
      (is_deadline : Error → Bool) (names : Net) (udp : Bool) (local_addr : List ℕ) {N : Type 0}
      (cork : N → S) (rc : N) (random : Q) (salts : Salts F) (ver ver2 rsv : ℕ) (methods : List ℕ)
      (y : Address) (rest back tgt : List ℕ) (c c' : C) (sc : StreamConn S Q F) (n : ℕ)
      (s : Relay (StreamConn S Q F) C)
      → length methods ≤ 255
      → IsAddress y
      → LiveC c (greeting ver methods ++ (request ver2 1 rsv y ++ rest)) []
      → Leading net put rand ciph x f env Live DS a laws a' laws' salt
          (new_conn (cork rc) random salts)
          back
      → is_deadline dl ≡ true
      → local_conn net put rand ciph x f env r cput names udp local_addr cork (ok rc) random salts c
        ≡ returns (proxies tgt c' sc)
      → Reach
          (write_to_round net put rand ciph x f env cput)
          (read_from_round net put rand ciph x f env r)
          read_timeout
          dl
          (relay_start sc c')
          n
          s
      → Relayed net put rand ciph x f env Live DS a laws a' laws' salt r cput LiveC DC read_timeout
          dl is_deadline back
          (encode y)
          rest
          (method_reply ++ connect_reply)
          (conn_budget net sc + r.budget c' + 2)
          n
          s
  local_conn-Relayed is_deadline names udp local_addr cork rc random salts ver ver2 rsv methods y
        rest back tgt c c' sc n s few valid live leading d ran reached =
      let (c1, sc1, ran1, live1, both) =
        local_conn-Both names udp local_addr cork rc random salts ver ver2 rsv methods y rest back c
          few valid live leading in
      let e : ◌≡◌ {A = Outcome (LocalEnd C (StreamConn S Q F))}
          (returns (proxies (encode y) c1 sc1)) (returns (proxies tgt c' sc)) =
        sym ran1 ∙ ran in
      let same : sc1 ≡ sc = cc (e) in
      let same' : c1 ≡ c' = cc (e) in
      Reach-Relayed net put rand ciph x f env Live DS a laws a' laws' salt r cput LiveC DC
        read_timeout dl is_deadline back (encode y) rest (method_reply ++ connect_reply) sc c' n s d
        (subst (λ z. Both net put rand ciph x f env Live a a' salt z back (encode y)) same both)
        (subst (λ z. LiveC z rest (method_reply ++ connect_reply)) same' live1) reached
