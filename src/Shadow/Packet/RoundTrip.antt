-- ===== src/Shadow/Packet/RoundTrip.antt =====
-- What `Pack` of m_shadow/packet.go makes, `Unpack` opens.
use miniproxygo.Common.{
  ℕ, ◌+◌, ◌-◌, ◌≤◌, ◌≡◌, refl, sym, ap, ◌∙◌, false, none, List, ◌++◌, length, take, drop, splice,
  ge→ltb, length-append, length-splice, take-append, drop-append, take-splice, length-replicate,
  arith,
}
use miniproxygo.Io.{Result, ok, Reader, Write, read_full}
use miniproxygo.Internal.Outcome.{Outcome, returns, ◌>>=◌}
use miniproxygo.Internal.Filter.{Filter}
use miniproxygo.Internal.SaltFilter.{Floats, Env, Salts, add_salt, check_salt}
use miniproxygo.Shadow.Aead.{Aead, IsAead}
use miniproxygo.Shadow.Nonce.{zeros}
use miniproxygo.Shadow.Cipher.{Cipher}
use miniproxygo.Shadow.Packet.{
  Packed, pack, seal_packet, failed_or, unpack, open_packet, zero_nonce_size, Received, PacketConn,
  packet_write_to, packet_read_from, post_packet, hand_packet,
}

module _ {Q R F : Type 0} (rand : Reader Q) (ciph : Cipher) (x : Floats R) (f : Filter R F)
    (env : Env) (a : Aead) (laws : IsAead a) (short : a.nonce_size ≤ zero_nonce_size) where
  -- The next random salt has a cipher and can be recorded.
  pub record Drawn (q : Q) (salts : Salts F) (salt : List ℕ) : Type 0 where
    pub salts_after : Salts F
    pub drawn : (read_full rand ciph.salt_size q).got ≡ salt
    pub no_error : (read_full rand ciph.salt_size q).err ≡ none
    pub fits : length salt ≡ ciph.salt_size
    pub keyed : ciph.encrypter salt ≡ ok a
    pub recorded : add_salt x f env salt salts ≡ returns salts_after

  -- The format of a packet.
  abbrev pub sealed_packet : List ℕ → List ℕ → List ℕ
  sealed_packet salt plaintext = salt ++ a.seal (zeros a.nonce_size) plaintext

  -- `Pack` into a slice with room for the salt, the plaintext and the overhead.
  pub pack-sealed_packet :
      (dst plaintext : List ℕ) (q : Q) (salts : Salts F) (salt : List ℕ)
      → Drawn q salts salt
      → ciph.salt_size + length plaintext + a.overhead ≤ length dst
      → (y : Packed Q F) × (pack rand ciph x f env dst plaintext q salts ≡ returns y)
        × (y.packet ≡ ok (sealed_packet salt plaintext))
        × (length y.dst ≡ length dst)
  unfolding pack seal_packet failed_or
  pack-sealed_packet dst plaintext q salts salt h room =
      let n = ciph.salt_size in
      let y = read_full rand n q in
      let b = a.seal (zeros a.nonce_size) plaintext in
      let sized : length b ≡ length plaintext + a.overhead =
        laws.length-seal _ plaintext (length-replicate a.nonce_size 0) in
      let d = splice 0 salt dst in
      let d_size : length d ≡ length dst = length-splice 0 salt dst (omega (arith, h.fits)) in
      let front : take n d ≡ salt =
        take-splice n 0 salt dst (omega (arith, h.fits)) (omega (arith, h.fits)) in
      let whole : take (n + length b) (splice n b d) ≡ sealed_packet salt plaintext =
        take-splice (n + length b) n b d (omega (arith, d_size)) refl ∙ ap (λ l. l ++ b) front in
      let seal : Result Aead → List ℕ → Outcome (Packed Q F) =
        λ c g. seal_packet rand ciph x f env c g (splice 0 g dst) plaintext y.next salts in
      (
        record {
          packet = ok (take (n + length b) (splice n b d));
          dst = splice n b d;
          random = y.next;
          salts = h.salts_after;
        },
        rw (ge→ltb (length dst) n (omega arith), h.no_error)
            (ap (λ g. seal (ciph.encrypter g) g) h.drawn
              ∙ ap (λ c. seal c salt) h.keyed
              ∙ rw
                  (
                    h.recorded,
                    ge→ltb (length d) (n + length plaintext + a.overhead) (omega (arith, d_size)),
                    ge→ltb zero_nonce_size a.nonce_size short,
                  )
                  refl),
        ap ok whole,
        length-splice n b d (omega (arith, sized, d_size)) ∙ d_size,
      )

  -- `Unpack` of a packet whose salt is new, into a slice with room for the plaintext.
  pub unpack-sealed_packet :
      (n : ℕ) (plaintext salt : List ℕ) (salts salts' : Salts F)
      → length salt ≡ ciph.salt_size
      → ciph.decrypter salt ≡ ok a
      → check_salt x f env salt salts ≡ returns (false, salts')
      → length plaintext ≤ n
      → unpack rand ciph x f env n (sealed_packet salt plaintext) salts
        ≡ returns (ok plaintext, salts')
  unfolding unpack open_packet
  unpack-sealed_packet n plaintext salt salts salts' fits keyed fresh room =
      let k = ciph.salt_size in
      let b = a.seal (zeros a.nonce_size) plaintext in
      let nonce_fits : length (zeros a.nonce_size) ≡ a.nonce_size =
        length-replicate a.nonce_size 0 in
      let sized : length b ≡ length plaintext + a.overhead =
        laws.length-seal _ plaintext nonce_fits in
      let pkt = sealed_packet salt plaintext in
      let size : length pkt ≡ k + length plaintext + a.overhead =
        omega (arith, length-append salt b, sized, fits) in
      let front : take k pkt ≡ salt = take-append k salt b (sym fits) in
      let back : drop k pkt ≡ b = drop-append k salt b (sym fits) in
      rw (ge→ltb (length pkt) k (omega (arith, size))) (
        ap (λ s. open_packet rand ciph x f env (ciph.decrypter s) n pkt salts) front
        ∙ ap (λ c. open_packet rand ciph x f env c n pkt salts) keyed
        ∙ rw
            (
              front,
              fresh,
              ge→ltb (length pkt) (k + a.overhead) (omega (arith, size)),
              ge→ltb (k + n + a.overhead) (length pkt) (omega (arith, size)),
              ge→ltb zero_nonce_size a.nonce_size short,
              back,
              laws.open-seal (zeros a.nonce_size) plaintext nonce_fits,
            )
            refl)

  -- `ReadFrom` of a `packetConn` on what a `WriteTo` of another one has posted: if the embedded
  -- connection delivers that datagram whole, into a buffer with room for it, and the salt is new to
  -- the reader, it returns the plaintext, its sender and no error.
  pub packet_read_from-packet_write_to :
      {P : Type 0} (recv : ℕ → P → Received P) (post : List ℕ → List ℕ → P → Write P) (n : ℕ)
      (b addr salt : List ℕ) (c d : PacketConn P Q F) (salts' : Salts F)
      → Drawn c.random c.salts salt
      → ciph.salt_size + length b + a.overhead ≤ length c.buf
      → ciph.decrypter salt ≡ ok a
      → check_salt x f env salt d.salts ≡ returns (false, salts')
      → ciph.salt_size + length b ≤ n
      → (recv n d.conn).err ≡ none
      → (recv n d.conn).got ≡ sealed_packet salt b
      → ((y : Write (PacketConn P Q F)) × (packet_write_to rand ciph x f env recv post b addr c
            ≡ returns y)
          × (y.count ≡ length b)
          × (y.next.conn ≡ (post (sealed_packet salt b) addr c.conn).next))
        × ((z : Received (PacketConn P Q F)) × (packet_read_from rand ciph x f env recv post n d
              ≡ returns z)
            × (z.got ≡ b)
            × (z.err ≡ none)
            × (z.from ≡ (recv n d.conn).from))
  unfolding packet_write_to packet_read_from hand_packet
  packet_read_from-packet_write_to {P} recv post n b addr salt c d salts' h room keyed fresh space
        clear arrived =
      let (y, packed, same, size) = pack-sealed_packet c.buf b c.random c.salts salt h room in
      let opened' =
        unpack-sealed_packet (n - ciph.salt_size) b salt d.salts salts' h.fits keyed fresh
          (omega arith) in
      let c' = record c { buf = y.dst; random = y.random; salts = y.salts } in
      let posted : Result (List ℕ) → Write (PacketConn P Q F) =
        λ k. post_packet rand ciph x f env recv post k b addr c' in
      (
        (
          posted y.packet,
          ap
              (λ m. m >>= λ z. returns (
                post_packet rand ciph x f env recv post z.packet b addr
                  (record c { buf = z.dst; random = z.random; salts = z.salts })))
              packed,
          ap (λ k. (posted k).count) same,
          ap (λ k. (posted k).next.conn) same,
        ),
        (
          record {
            got = b;
            from = (recv n d.conn).from;
            err = none;
            next = record d { conn = (recv n d.conn).next; salts = salts' };
          },
          rw (clear, ge→ltb n ciph.salt_size (omega arith), arrived, opened') refl,
          refl,
          refl,
          refl,
        ),
      )
