-- ===== src/Shadow/Packet.antt =====
-- m_shadow/packet.go: encrypted packets, each under a salt of its own and the nonce zero.
pub mod RoundTrip
mod Runs
use miniproxygo.Common.{
  ℕ, ◌+◌, ◌-◌, ◌*◌, Bool, true, false, Option, none, some, List, [], length, take, drop, replicate,
  splice, if◌then◌else◌, ltb,
}
use miniproxygo.Io.{Error, Result, ok, err, Read, Reader, Write, is_nil, read_full}
use miniproxygo.Internal.Outcome.{Outcome, returns, panics, ◌>>=◌}
use miniproxygo.Internal.Filter.{Filter}
use miniproxygo.Internal.SaltFilter.{Floats, Env, Salts, add_salt, check_salt}
use miniproxygo.Shadow.Aead.{Aead}
use miniproxygo.Shadow.Nonce.{zeros}
use miniproxygo.Shadow.Cipher.{Cipher}

-- `len(_zerononce)`
abbrev pub zero_nonce_size : ℕ
zero_nonce_size = 128

-- What `Pack` returns, with the slice `dst`, the random numbers and the salt filter behind it.
pub record Packed (Q F : Type 0) : Type 0 where
  pub packet : Result (List ℕ)
  pub dst : List ℕ
  pub random : Q
  pub salts : Salts F

-- What a `net.PacketConn` returns from `ReadFrom`: the packet, cut to the buffer's size, its sender,
-- the error and the connection behind it.
pub record Received (P : Type 0) : Type 0 where
  pub got : List ℕ
  pub from : List ℕ
  pub err : Option Error
  pub next : P

-- The fields of `packetConn`, and what it shares with the process. The mutex admits one `WriteTo` at
-- a time: the calls are in a row.
pub record PacketConn (P Q F : Type 0) : Type 0 where
  pub conn : P
  pub buf : List ℕ
  pub random : Q
  pub salts : Salts F

-- The buffer of `NewPacketConn`.
abbrev pub max_packet_size : ℕ
max_packet_size = 64 * 1024

abbrev pub opened : Option (List ℕ) → Result (List ℕ)
opened none = err Error.authentication_failed
opened (some plain) = ok plain

module _ {Q R F : Type 0} (rand : Reader Q) (ciph : Cipher) (x : Floats R) (f : Filter R F)
    (env : Env) where
  -- `Pack` behind the choice of the cipher; `dst` begins with the salt. `_zerononce[:n]` panics for
  -- a nonce longer than the array.
  seal_packet : Result Aead → List ℕ → List ℕ → List ℕ → Q → Salts F → Outcome (Packed Q F)
  seal_packet (err e) salt dst plaintext q salts =
      returns (record { packet = err e; dst = dst; random = q; salts = salts })
  seal_packet (ok a) salt dst plaintext q salts = add_salt x f env salt salts >>= λ salts'.
      let b = a.seal (zeros a.nonce_size) plaintext in
      let dst' = splice ciph.salt_size b dst in
      if ltb (length dst) (ciph.salt_size + length plaintext + a.overhead)
      then returns
          (record { packet = err Error.short_buffer; dst = dst; random = q; salts = salts' })
      else if ltb zero_nonce_size a.nonce_size
      then panics
      else returns (record {
        packet = ok (take (ciph.salt_size + length b) dst');
        dst = dst';
        random = q;
        salts = salts';
      })

  -- The test of the error of `io.ReadFull`.
  failed_or : List ℕ → Q → Salts F → Option Error → Outcome (Packed Q F) → Outcome (Packed Q F)
  failed_or dst q salts none go_on = go_on
  failed_or dst q salts (some e) go_on =
      returns (record { packet = err e; dst = dst; random = q; salts = salts })

  -- `Pack`; `dst[:saltSize]` panics on a slice that is shorter.
  unfoldable pub pack : List ℕ → List ℕ → Q → Salts F → Outcome (Packed Q F)
  unfolding seal_packet failed_or
  pack dst plaintext q salts =
      let y = read_full rand ciph.salt_size q in
      let dst' = splice 0 y.got dst in
      if ltb (length dst) ciph.salt_size
      then panics
      else failed_or dst' y.next salts y.err
          (seal_packet (ciph.encrypter y.got) y.got dst' plaintext y.next salts)

  open_packet : Result Aead → ℕ → List ℕ → Salts F → Outcome (Result (List ℕ) × Salts F)
  open_packet (err e) dst_len pkt salts = returns (err e, salts)
  open_packet (ok a) dst_len pkt salts =
      check_salt x f env (take ciph.salt_size pkt) salts >>= λ (seen, salts').
      if seen
      then returns (err Error.repeated_salt, salts')
      else if ltb (length pkt) (ciph.salt_size + a.overhead)
      then returns (err Error.short_packet, salts')
      else if ltb (ciph.salt_size + dst_len + a.overhead) (length pkt)
      then returns (err Error.short_buffer, salts')
      else if ltb zero_nonce_size a.nonce_size
      then panics
      else returns (opened (a.open_box (zeros a.nonce_size) (drop ciph.salt_size pkt)), salts')

  -- `Unpack` into a slice `dst` of `dst_len` bytes, which the plaintext fills from the start.
  unfoldable pub unpack : ℕ → List ℕ → Salts F → Outcome (Result (List ℕ) × Salts F)
  unfolding open_packet
  unpack dst_len pkt salts =
      if ltb (length pkt) ciph.salt_size
      then returns (err Error.short_packet, salts)
      else open_packet (ciph.decrypter (take ciph.salt_size pkt)) dst_len pkt salts

  module _ {P : Type 0} (recv : ℕ → P → Received P) (post : List ℕ → List ℕ → P → Write P) where
    -- The write to the embedded connection, if there is a packet.
    abbrev pub post_packet :
        Result (List ℕ) → List ℕ → List ℕ → PacketConn P Q F → Write (PacketConn P Q F)
    post_packet (err e) b addr c = record { count = 0; err = some e; next = c }
    post_packet (ok packet) b addr c =
        let z = post packet addr c.conn in
        record { count = length b; err = z.err; next = record c { conn = z.next } }

    -- `WriteTo(b, addr)`
    unfoldable pub packet_write_to :
        List ℕ → List ℕ → PacketConn P Q F → Outcome (Write (PacketConn P Q F))
    packet_write_to b addr c = pack c.buf b c.random c.salts >>= λ y.
        returns (
          post_packet y.packet b addr
            (record c { buf = y.dst; random = y.random; salts = y.salts }))

    -- What `ReadFrom` makes of a packet: the plaintext is copied to the start of `b`; on an error `b`
    -- keeps the packet, and its size is returned.
    hand_packet :
        Received P → PacketConn P Q F → Result (List ℕ) × Salts F → Received (PacketConn P Q F)
    hand_packet y c (err e, salts) = record {
      got = y.got;
      from = y.from;
      err = some e;
      next = record c { conn = y.next; salts = salts };
    }
    hand_packet y c (ok plain, salts) = record {
      got = plain;
      from = y.from;
      err = none;
      next = record c { conn = y.next; salts = salts };
    }

    -- `ReadFrom(b)` with `len(b) == n`; `b[SaltSize:]` panics on a buffer that is shorter.
    unfoldable pub packet_read_from : ℕ → PacketConn P Q F → Outcome (Received (PacketConn P Q F))
    unfolding hand_packet
    packet_read_from n c =
        let y = recv n c.conn in
        if is_nil y.err
        then if ltb n ciph.salt_size
          then panics
          else (unpack (n - ciph.salt_size) y.got c.salts >>= λ z. returns (hand_packet y c z))
        else returns
            (record { got = y.got; from = y.from; err = y.err; next = record c { conn = y.next } })

-- `NewPacketConn`
abbrev pub new_packet_conn : {P Q F : Type 0} → P → Q → Salts F → PacketConn P Q F
new_packet_conn p q salts = record {
  conn = p;
  buf = replicate max_packet_size 0;
  random = q;
  salts = salts;
}
