-- ===== src/Server/Tunnel/Joined.antt =====
-- Both halves of m_server/socks_server.go together: the remote half dials what the client has named to
-- the local half, and gets what the client's side sends behind it.
use miniproxygo.Common.{
  ℕ, ◌≤◌, ◌≡◌, refl, sym, subst, ap, ◌∙◌, inr, Bool, false, none, List, [], ◌∷◌, ◌++◌, length,
  if◌then◌else◌, arith, Option-cases, inl,
}
use miniproxygo.Io.{Write, Result, ok, Reader, Writer, Sends, is_nil}
use miniproxygo.Io.Network.{
  Conn, network, send, Incoming, Outgoing, Duplex, network-Delivers, send-Sends,
}
use miniproxygo.Internal.Outcome.{Outcome, returns, ◌>>=◌, >>=-returns}
use miniproxygo.Internal.Filter.{Filter}
use miniproxygo.Internal.SaltFilter.{Floats, Env, Salts, check_salt}
use miniproxygo.Shadow.Aead.{Aead, IsAead}
use miniproxygo.Shadow.Frame.{concat}
use miniproxygo.Shadow.Cipher.{
  Cipher, Crypto, MetaCipher, cipher_of, encrypter, decrypter, salt_size, salt_size_bounds,
}
use miniproxygo.Shadow.Conn.{StreamConn, new_conn, write_conn}
use miniproxygo.Shadow.Conn.Source.{Bringing}
use miniproxygo.Shadow.Conn.EndToEnd.{reached}
use miniproxygo.Shadow.Conn.Writing.{Leaving, write_each, write_each-Stream}
use miniproxygo.Socks.Addr.{Net, to_string}
use miniproxygo.Socks.Addr.Wire.{Address, encode, IsAddress}
use miniproxygo.Socks.HandShake.{hand_shake}
use miniproxygo.Socks.HandShake.Replies.{hand_shake-Answered, greeting, request}
use miniproxygo.Server.Tunnel.{
  LocalEnd, proxies, connects, local_conn, got_address, sent_target, serve_accepted,
}
use miniproxygo.Server.Cork.{timer_end}
use miniproxygo.Server.Cork.Timed.{
  Timed, timed, timed_reader, timed_write, Gathered, timed_write-Sends, timed-Gathered,
  timer_end-Sent, Below, timed_reader-Delivers,
}
use miniproxygo.Server.Tunnel.Target.{remote_conn-connects}

module _ {S Q R F : Type 0} (net : Reader S) (put : Writer S) (rand : Reader Q) (ciph : Cipher)
    (x : Floats R) (f : Filter R F) (env : Env) where
  -- An address has gone out without error where the local half relays.
  sent_target-proxies :
      {C : Type 0} (t t' : List ℕ) (c c' : C) (w : Write (StreamConn S Q F)) (sc : StreamConn S Q F)
      → ◌≡◌ {A = Outcome (LocalEnd C (StreamConn S Q F))}
          (returns (sent_target net put rand ciph x f env t c w))
          (returns (proxies t' c' sc))
      → (w.err ≡ none) × (w.next ≡ sc)
  sent_target-proxies t t' c c' w sc e = elim (Option-cases w.err) [
    | inl fine ↦ let k = rw fine at e in (fine, cc (k))
    | inr (why, failed) ↦ let k = rw failed at e in cc (k)
  ]

  module _ (Sent : S → List ℕ → Type 0) (O : Sends put Sent) (a : Aead) (laws : IsAead a) where
    -- Where the local half relays, the calls of `Write` on its encrypted connection go on from the one
    -- that has sent the address.
    local_conn-write_each :
        {C : Type 0} (r : Reader C) (cput : Writer C) (names : Net) (udp : Bool)
        (local_addr : List ℕ) (Live : C → List ℕ → List ℕ → Type 0) (D : Duplex r cput Live)
        {N : Type 0} (cork : N → S) (rc : N) (random : Q) (salts : Salts F) (ver ver2 rsv : ℕ)
        (methods : List ℕ) (y : Address) (rest : List ℕ) (c c' : C) (tgt : List ℕ)
        (sc : StreamConn S Q F) (bs : List (List ℕ))
        → length methods ≤ 255
        → IsAddress y
        → Live c (greeting ver methods ++ (request ver2 1 rsv y ++ rest)) []
        → local_conn net put rand ciph x f env r cput names udp local_addr cork
            (ok rc)
            random
            salts
            c
          ≡ returns (proxies tgt c' sc)
        → write_each net put rand ciph x f env (encode y ∷ bs) (new_conn (cork rc) random salts)
          ≡ write_each net put rand ciph x f env bs sc
    unfolding local_conn write_each
    local_conn-write_each r cput names udp local_addr Live D cork rc random salts ver ver2 rsv
          methods y rest c c' tgt sc bs few valid live ran =
        let answered =
          hand_shake-Answered r cput names udp local_addr Live D ver ver2 1 rsv methods y rest [] c
            few valid live in
        let c1 = (hand_shake r cput names udp local_addr c).1 in
        let nc = new_conn (cork rc) random salts in
        let wrote =
          sym (
            ap
              (got_address net put rand ciph x f env r cput names udp local_addr cork (ok rc) random
                salts c1)
              answered.0)
          ∙ ran in
        let (w, one, two) =
          >>=-returns (write_conn net put rand ciph x f env (encode y) nc)
            (λ z. returns (sent_target net put rand ciph x f env (encode y) c1 z))
            (proxies tgt c' sc) wrote in
        let (fine, same) = sent_target-proxies (encode y) tgt c1 c' w sc two in
        let each = write_each net put rand ciph x f env bs in
        ap (λ m. m >>= λ z. if is_nil z.err then each z.next else returns (z.err, z.next)) one
        ∙ ap (λ e. if is_nil e then each w.next else returns (e, w.next)) fine
        ∙ ap each same

-- Both halves with the same cipher, each in its own process, each over a connection in `timedCork`.
-- A client, whose connection fails no call, greets the local half with at most 255 methods and asks
-- to CONNECT to a well-formed address; the connection to the remote half refuses no call, and the
-- next random salt has a cipher and can be recorded. The local half relays, and sends `bs` behind
-- the address without error; the timer of its connection fires between any two writes to it, at the
-- latest behind the last one. If the salt is new to the remote half, and all that has gone out then
-- arrives there in any pieces, the remote half dials the address that the client has named, and, if
-- the target answers, relays with exactly the bytes of `bs` still to be read.
pub remote_conn-local_conn :
    {C T Q R F Block : Type 0} (rand : Reader Q) (crypto : Crypto Block) (m : MetaCipher)
    (x : Floats R) (f : Filter R F) (env env' : Env) (a : Aead) (laws : IsAead a) (r : Reader C)
    (cput : Writer C) (names : Net) (udp : Bool) (local_addr : List ℕ)
    (Live : C → List ℕ → List ℕ → Type 0) (D : Duplex r cput Live) (fires fires' : List Bool)
    (rc d : Conn) (random random' : Q) (salts theirs salts' : Salts F) (ver ver2 rsv : ℕ)
    (methods : List ℕ) (y : Address) (rest salt : List ℕ) (c c' : C) (tgt : List ℕ)
    (sc sc' : StreamConn (Timed Conn) Q F) (bs : List (List ℕ)) (dial : List ℕ → Result T)
    (target : T)
    → length methods ≤ 255
    → IsAddress y
    → Live c (greeting ver methods ++ (request ver2 1 rsv y ++ rest)) []
    → Leaving
        (timed_reader network)
        (timed_write send)
        rand
        (cipher_of crypto m)
        x
        f
        env
        a
        (new_conn (timed fires rc) random salts)
        salt
    → Outgoing rc []
    → local_conn
        (timed_reader network)
        (timed_write send)
        rand
        (cipher_of crypto m)
        x
        f
        env
        r
        cput
        names
        udp
        local_addr
        (timed fires)
        (ok rc)
        random
        salts
        c
      ≡ returns (proxies tgt c' sc)
    → write_each (timed_reader network) (timed_write send) rand (cipher_of crypto m) x f env bs sc
      ≡ returns (none, sc')
    → (timer_end send sc'.conn.conn).corked ≡ false
    → Incoming d (timer_end send sc'.conn.conn).bufw.wr.outgoing
    → length salt ≡ salt_size m
    → check_salt x f env' salt theirs ≡ returns (false, salts')
    → dial (to_string names (encode y)) ≡ ok target
    → (d' : StreamConn (Timed Conn) Q F) × (serve_accepted
          (timed_reader network)
          (timed_write send)
          rand
          (cipher_of crypto m)
          x
          f
          env'
          names
          dial
          (timed fires')
          random'
          theirs
          d
        ≡ connects target d')
      × Bringing
          (timed_reader network)
          (timed_write send)
          rand
          (cipher_of crypto m)
          x
          f
          env'
          (Below network Incoming)
          a
          d'
          (concat bs)
unfolding serve_accepted
remote_conn-local_conn rand crypto m x f env env' a laws r cput names udp local_addr Live D fires
      fires' rc d random random' salts theirs salts' ver ver2 rsv methods y rest salt c c' tgt sc
      sc' bs dial target few valid live leaving quiet ran wrote fired arrives sized fresh answers =
    let ciph = cipher_of crypto m in
    let net = timed_reader network in
    let put = timed_write send in
    let Sent = Gathered send Outgoing send-Sends in
    let O = timed_write-Sends send Outgoing send-Sends in
    let all_wrote =
      local_conn-write_each net put rand ciph x f env Sent O a laws r cput names udp local_addr Live
        D (timed fires) rc random salts ver ver2 rsv methods y rest c c' tgt sc bs few valid live
        ran
      ∙ wrote in
    let (c1, sent, wire, on_wire, stream) =
      write_each-Stream net put rand ciph x f env Sent O a laws (encode y) bs
        (new_conn (timed fires rc) random salts) salt [] leaving
        (timed-Gathered send Outgoing send-Sends fires rc quiet) in
    let same = reached c1 sc' (sym sent ∙ all_wrote) in
    let out : Outgoing (timer_end send sc'.conn.conn).bufw.wr (salt ++ wire) =
      timer_end-Sent send Outgoing send-Sends (salt ++ wire) sc'.conn.conn
        (subst (λ z. Gathered send Outgoing send-Sends z.conn (salt ++ wire)) same on_wire) fired in
    remote_conn-connects net put rand ciph x f env' a laws (Below network Incoming)
      (timed_reader-Delivers network Incoming network-Delivers) names dial target y (concat bs)
      (new_conn (timed fires' d) random' theirs) valid
      (inr (record {
        salt = salt;
        wire = wire;
        salts = salts';
        nothing_read = refl;
        salt_fits = sized;
        not_empty = omega (arith, (salt_size_bounds m).0);
        keyed = unfold encrypter decrypter in leaving.keyed;
        new_salt = fresh;
        input = (arrives.0, arrives.1 ∙ out.1);
        carried = stream;
      }))
      answers
