-- ===== src/Shadow/Conn/Writing.antt =====
-- What `Write` of `streamConn` puts on the wire, and both ends of a connection together.
use miniproxygo.Common.{
  ℕ, ◌≡◌, refl, sym, ap, ◌∙◌, subst, Option, none, some, List, [], ◌∷◌, ◌++◌, append_assoc,
  if◌then◌else◌,
}
use miniproxygo.Io.{Write, Error, ok, Reader, Writer, Sends, is_nil, read_full}
use miniproxygo.Internal.Outcome.{Outcome, returns, ◌>>=◌}
use miniproxygo.Internal.Filter.{Filter}
use miniproxygo.Internal.SaltFilter.{Floats, Env, Salts, add_salt}
use miniproxygo.Shadow.Aead.{Aead, IsAead}
use miniproxygo.Shadow.Nonce.{zeros}
use miniproxygo.Shadow.Frame.{frames, concat}
use miniproxygo.Shadow.Cipher.{Cipher}
use miniproxygo.Shadow.Writer.{Sealer, new_writer, write}
use miniproxygo.Shadow.Writer.Seal.{IsReady}
use miniproxygo.Shadow.Writer.Frames.{new_writer-IsReady, write-Sealed}
use miniproxygo.Shadow.RoundTrip.{Stream, write_all, write_all-Stream}
use miniproxygo.Shadow.Conn.{
  StreamConn, unless_set, init_writer, announce_salt, with_writer, after_writer, write_through,
  write_conn,
}

module _ {S Q R F : Type 0} (net : Reader S) (put : Writer S) (rand : Reader Q) (ciph : Cipher)
    (x : Floats R) (f : Filter R F) (env : Env) where
  -- Calls of `Write` in a row, as long as each reports no error: the connection behind them.
  unfoldable pub write_each :
      List (List ℕ) → StreamConn S Q F → Outcome (Option Error × StreamConn S Q F)
  write_each [] c = returns (none, c)
  write_each (b ∷ bs) c = write_conn net put rand ciph x f env b c >>= λ y.
      if is_nil y.err then write_each bs y.next else returns (y.err, y.next)

  -- Nothing has been written, and the next random salt has a cipher and can be recorded.
  pub record Leaving (a : Aead) (c : StreamConn S Q F) (salt : List ℕ) : Type 0 where
    pub salts : Salts F
    pub nothing_written : c.w ≡ none
    pub drawn : (read_full rand ciph.salt_size c.random).got ≡ salt
    pub no_error : (read_full rand ciph.salt_size c.random).err ≡ none
    pub keyed : ciph.encrypter salt ≡ ok a
    pub recorded : add_salt x f env salt c.salts ≡ returns salts

  module _ (Sent : S → List ℕ → Type 0) (O : Sends put Sent) (a : Aead) (laws : IsAead a) where
    -- The writer exists and is ready.
    abbrev pub Writing : StreamConn S Q F → Sealer → Type 0
    Writing c w = (c.w ≡ some (a, w)) × IsReady a w

    pub init_writer-Writing :
        (c : StreamConn S Q F) (salt out : List ℕ) (h : Leaving a c salt)
        → Sent c.conn out
        → (c' : StreamConn S Q F) × (init_writer net put rand ciph x f env c ≡ returns (none, c'))
          × (c'.w ≡ some (a, new_writer a))
          × Sent c'.conn (out ++ salt)
          × (c'.r ≡ c.r)
          × (c'.salts ≡ h.salts)
    unfolding init_writer
    init_writer-Writing c salt out h s =
        let y = read_full rand ciph.salt_size c.random in
        let c1 = record c { random = y.next } in
        let sent = O c.conn out salt s in
        let announce = announce_salt net put rand ciph x f env in
        (
          record c1 { conn = (put salt c.conn).next; salts = h.salts; w = some (a, new_writer a) },
          rw h.no_error (
              ap (λ g. announce (ciph.encrypter g) g c1) h.drawn
              ∙ ap (λ k. announce k salt c1) h.keyed
              ∙ rw (sent.0, h.recorded) refl),
          refl,
          sent.2,
          refl,
          refl,
        )

    pub write_conn-set :
        (b : List ℕ) (c : StreamConn S Q F) (w : Sealer)
        → c.w ≡ some (a, w)
        → write_conn net put rand ciph x f env b c
          ≡ write_through net put rand ciph x f env b (some (a, w)) c
    unfolding write_conn with_writer after_writer
    write_conn-set b c w has =
        ap
          (λ m.
            unless_set net put rand ciph x f env m c (init_writer net put rand ciph x f env c)
            >>= after_writer net put rand ciph x f env b)
          has
        ∙ ap (λ m. write_through net put rand ciph x f env b m c) has

    -- Behind the first record, the calls are those of the encrypting writer.
    write_each-write_all :
        (bs : List (List ℕ)) (c : StreamConn S Q F) (w : Sealer) (out : List ℕ)
        → Writing c w
        → Sent c.conn out
        → write_each bs c
          ≡ returns (
            none,
            record c {
              conn = (write_all a put bs w c.conn).1;
              w = some (a, (write_all a put bs w c.conn).0);
            },
          )
    unfolding write_each write_all write_through
    write_each-write_all [] c w out (has, ready) s =
        ap (λ m. returns (none, record c { w = m })) has
    write_each-write_all (b ∷ bs) c w out (has, ready) s =
        let y = write a put b w c.conn in
        let first = write-Sealed a laws put Sent O b w c.conn out s ready in
        let c1 = record c { conn = y.sink; w = some (a, y.cipher) } in
        let rest = write_each-write_all bs c1 y.cipher _ (refl, first.ready) first.sent in
        ap (λ m. m >>= λ z. if is_nil z.err then write_each bs z.next else returns (z.err, z.next))
          (write_conn-set b c w has)
        ∙ ap (λ e. if is_nil e then write_each bs c1 else returns (e, c1)) first.no_error
        ∙ rest

    -- The first call of `Write` draws the salt.
    pub write_conn_first :
        (b : List ℕ) (c c' : StreamConn S Q F) (w : Sealer)
        → c.w ≡ none
        → init_writer net put rand ciph x f env c ≡ returns (none, c')
        → c'.w ≡ some (a, w)
        → write_conn net put rand ciph x f env b c ≡ write_conn net put rand ciph x f env b c'
    unfolding write_conn with_writer
    write_conn_first b c c' w none_yet made has =
        ap (λ m. m >>= after_writer net put rand ciph x f env b)
          (ap
              (λ m.
                unless_set net put rand ciph x f env m c (init_writer net put rand ciph x f env c))
              none_yet
            ∙ made
            ∙ sym (
                ap
                  (λ m.
                    unless_set net put rand ciph x f env m c'
                      (init_writer net put rand ciph x f env c'))
                  has))

    -- Calls of `Write` on a new connection, the first of them included: each reports no error, and
    -- together they put the salt on the wire and a stream of records that carries all their bytes.
    pub write_each-Stream :
        (b : List ℕ) (bs : List (List ℕ)) (c : StreamConn S Q F) (salt out : List ℕ)
        → Leaving a c salt
        → Sent c.conn out
        → (c' : StreamConn S Q F) × (write_each (b ∷ bs) c ≡ returns (none, c'))
          × (wire : List ℕ) × Sent c'.conn (out ++ (salt ++ wire))
          × Stream a (zeros a.nonce_size) (concat (b ∷ bs)) wire
    write_each-Stream b bs c salt out h s =
        let (c1, made, has, sent, same_r, same_salts) = init_writer-Writing c salt out h s in
        let w = new_writer a in
        let (wire, sent', stream) =
          write_all-Stream a laws put Sent O (b ∷ bs) w c1.conn (out ++ salt) sent
            (new_writer-IsReady a) in
        (
          record c1 {
            conn = (write_all a put (b ∷ bs) w c1.conn).1;
            w = some (a, (write_all a put (b ∷ bs) w c1.conn).0);
          },
          unfold write_each in
              ap
                (λ m.
                  m >>= λ z. if is_nil z.err then write_each bs z.next else returns (z.err, z.next))
                (write_conn_first b c c1 w h.nothing_written made has)
              ∙ write_each-write_all (b ∷ bs) c1 w (out ++ salt) (has, new_writer-IsReady a) sent,
          wire,
          subst (Sent _) (append_assoc out salt wire) sent',
          unfold new_writer in stream,
        )

    -- The first call of `Write` on a new connection reports no error, and puts the salt on the wire
    -- and a stream of records that carries its bytes.
    pub write_conn-Stream :
        (b : List ℕ) (c : StreamConn S Q F) (salt out : List ℕ)
        → Leaving a c salt
        → Sent c.conn out
        → (y : Write (StreamConn S Q F)) × (write_conn net put rand ciph x f env b c ≡ returns y)
          × (y.err ≡ none)
          × (wire : List ℕ) × Sent y.next.conn (out ++ (salt ++ wire))
          × Stream a (zeros a.nonce_size) b wire
    unfolding write_through
    write_conn-Stream b c salt out h s =
        let (c1, made, has, sent, same_r, same_salts) = init_writer-Writing c salt out h s in
        let w = new_writer a in
        let first =
          write-Sealed a laws put Sent O b w c1.conn (out ++ salt) sent (new_writer-IsReady a) in
        let y = write a put b w c1.conn in
        (
          record {
            count = y.total;
            err = y.err;
            next = record c1 { conn = y.sink; w = some (a, y.cipher) };
          },
          write_conn_first b c c1 w h.nothing_written made has ∙ write_conn-set b c1 w has,
          first.no_error,
          frames a w.nonce first.records,
          subst (Sent _) (append_assoc out salt _) first.sent,
          unfold new_writer in
              record {
                records = first.records;
                payloads = first.payloads;
                same_bytes = first.same_bytes;
                same_out = refl;
              },
        )
