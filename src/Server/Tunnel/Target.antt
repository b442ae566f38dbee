-- ===== src/Server/Tunnel/Target.antt =====
-- The remote half connects to the target that the client has named to the local half.
use miniproxygo.Common.{ℕ, ◌≤◌, ◌≡◌, ap, ap₂, ◌∙◌, Bool, List, [], ◌++◌, length}
use miniproxygo.Io.{Result, ok, Reader, Writer, Delivers, Sends}
use miniproxygo.Io.Network.{Duplex}
use miniproxygo.Internal.Outcome.{returns, ◌>>=◌}
use miniproxygo.Internal.Filter.{Filter}
use miniproxygo.Internal.SaltFilter.{Floats, Env, Salts}
use miniproxygo.Shadow.Aead.{Aead, IsAead}
use miniproxygo.Shadow.Nonce.{zeros}
use miniproxygo.Shadow.Cipher.{Cipher}
use miniproxygo.Shadow.RoundTrip.{Stream}
use miniproxygo.Shadow.Conn.{StreamConn, new_conn}
use miniproxygo.Shadow.Conn.Source.{conn_reader, Bringing, conn_reader-Delivers}
use miniproxygo.Shadow.Conn.Writing.{Leaving, write_conn-Stream}
use miniproxygo.Socks.Addr.{Net, read_addr, to_string}
use miniproxygo.Socks.Addr.Wire.{Address, encode, IsAddress}
use miniproxygo.Socks.Addr.Reading.{read_addr-encode}
use miniproxygo.Socks.HandShake.{hand_shake, connect_reply, method_reply}
use miniproxygo.Socks.HandShake.Replies.{hand_shake-Answered, greeting, request}
use miniproxygo.Server.Tunnel.{
  proxies, connects, local_conn, got_address, sent_target, remote_conn, read_target, dial_target,
}

module _ {S Q R F : Type 0} (net : Reader S) (put : Writer S) (rand : Reader Q) (ciph : Cipher)
    (x : Floats R) (f : Filter R F) (env : Env) (a : Aead) (laws : IsAead a) where
  -- The remote half, on an encrypted connection that brings a well-formed address and then `rest`:
  -- it dials the address as text, and if the target answers it relays, with `rest` still to be read.
  pub remote_conn-connects :
      {T : Type 0} (Holds : S → List ℕ → Type 0) (D : Delivers net Holds) (names : Net)
      (dial : List ℕ → Result T) (target : T) (y : Address) (rest : List ℕ) (sc : StreamConn S Q F)
      → IsAddress y
      → Bringing net put rand ciph x f env Holds a sc (encode y ++ rest)
      → dial (to_string names (encode y)) ≡ ok target
      → (sc' : StreamConn S Q F) × (remote_conn net put rand ciph x f env names dial sc
          ≡ connects target sc')
        × Bringing net put rand ciph x f env Holds a sc' rest
  unfolding remote_conn
  remote_conn-connects Holds D names dial target y rest sc valid brings answers =
      let r = conn_reader net put rand ciph x f env in
      let got =
        read_addr-encode r (Bringing net put rand ciph x f env Holds a)
          (conn_reader-Delivers net put rand ciph x f env Holds D a laws) y rest sc valid brings in
      let sc' = (read_addr r sc).next in
      (
        sc',
        ap₂ (λ t e. read_target net put rand ciph x f env names dial t e sc') got.0 got.1
            ∙ ap (λ t. dial_target net put rand ciph x f env names dial t sc') answers,
        got.2,
      )

  -- The local half, with a client that greets with at most 255 methods and asks to CONNECT to a
  -- well-formed address: if the remote half answers and there is a salt for it, the local half tells
  -- the client that it is connected, and relays; what has gone to the remote half is the salt and a
  -- stream of records that carries the address.
  pub local_conn-proxies :
      {C : Type 0} (Sent : S → List ℕ → Type 0) (O : Sends put Sent) (r : Reader C)
      (cput : Writer C) (names : Net) (udp : Bool) (local_addr : List ℕ)
      (Live : C → List ℕ → List ℕ → Type 0) (D : Duplex r cput Live) {N : Type 0} (cork : N → S)
      (rc : N) (random : Q) (salts : Salts F) (ver ver2 rsv : ℕ) (methods : List ℕ) (y : Address)
      (rest salt : List ℕ) (c : C)
      → length methods ≤ 255
      → IsAddress y
      → Live c (greeting ver methods ++ (request ver2 1 rsv y ++ rest)) []
      → Leaving net put rand ciph x f env a (new_conn (cork rc) random salts) salt
      → Sent (cork rc) []
      → (c' : C) × (sc : StreamConn S Q F) × (wire : List ℕ) × (local_conn net put rand ciph x f env
            r cput names udp local_addr cork
            (ok rc)
            random
            salts
            c
          ≡ returns (proxies (encode y) c' sc))
        × Live c' rest (method_reply ++ connect_reply)
        × Sent sc.conn (salt ++ wire)
        × Stream a (zeros a.nonce_size) (encode y) wire
  unfolding local_conn
  local_conn-proxies Sent O r cput names udp local_addr Live D cork rc random salts ver ver2 rsv
        methods y rest salt c few valid live leaving quiet =
      let answered =
        hand_shake-Answered r cput names udp local_addr Live D ver ver2 1 rsv methods y rest [] c
          few valid live in
      let c' = (hand_shake r cput names udp local_addr c).1 in
      let (w, wrote, no_error, wire, sent, stream) =
        write_conn-Stream net put rand ciph x f env Sent O a laws (encode y)
          (new_conn (cork rc) random salts) salt [] leaving quiet in
      (
        c',
        w.next,
        wire,
        ap
              (got_address net put rand ciph x f env r cput names udp local_addr cork (ok rc) random
                salts c')
              answered.0
            ∙ ap (λ m. m >>= λ z. returns (sent_target net put rand ciph x f env (encode y) c' z))
                wrote
            ∙ ap
                (λ e.
                  returns
                    (sent_target net put rand ciph x f env (encode y) c' (record w { err = e })))
                no_error,
        answered.1,
        sent,
        stream,
      )
