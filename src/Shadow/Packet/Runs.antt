-- ===== src/Shadow/Packet/Runs.antt =====
-- A packet from one process to another, and the theorem on it.
use miniproxygo.Common.{
  ℕ, ◌≡◌, refl, false, none, List, [], ◌∷◌, ◌++◌, replicate, arith, length, take,
}
use miniproxygo.Io.{ok, read_full, Write}
use miniproxygo.Io.Buffer.{buffer}
use miniproxygo.Internal.Outcome.{returns}
use miniproxygo.Internal.BloomRing.{add, add_entry, test, test_slots}
use miniproxygo.Internal.SaltFilter.{check_salt, add_salt, get_salt_filter_singleton}
use miniproxygo.Internal.Toy.{exact, whole, ready, off}
use miniproxygo.Shadow.Toy.{meta, ciph, salt, salted, toy, toy-IsAead}
use miniproxygo.Shadow.Cipher.{encrypter, decrypter, aes_gcm, salt_size}
use miniproxygo.Shadow.Packet.{Received, PacketConn, packet_write_to, packet_read_from}
use miniproxygo.Shadow.Packet.RoundTrip.{Drawn, packet_read_from-packet_write_to}

-- A connection with one datagram: what arrives, and from where.
abbrev recv : ℕ → List ℕ → Received (List ℕ)
recv n p = record { got = take n p; from = 1 ∷ []; err = none; next = [] }

abbrev post : List ℕ → List ℕ → List ℕ → Write (List ℕ)
post b addr p = record { count = length b; err = none; next = b }

abbrev sender : PacketConn (List ℕ) (List ℕ) (List (List ℕ))
sender = record { conn = []; buf = replicate 64 0; random = salt; salts = ready }

abbrev receiver : PacketConn (List ℕ) (List ℕ) (List (List ℕ))
receiver = record {
  conn = salt ++ 0 ∷ 7 ∷ 8 ∷ [];
  buf = replicate 64 0;
  random = [];
  salts = ready;
}

sender-Drawn : Drawn buffer ciph whole exact off toy toy-IsAead (omega arith) salt ready salt
unfolding read_full buffer encrypter aes_gcm salt_size add_salt get_salt_filter_singleton add
    add_entry
sender-Drawn = record {
  salts_after = salted;
  drawn = refl;
  no_error = refl;
  fits = refl;
  keyed = refl;
  recorded = refl;
}

keyed : ciph.decrypter salt ≡ ok toy
unfolding decrypter aes_gcm
keyed = refl

new_to_receiver : check_salt whole exact off salt ready ≡ returns (false, ready)
unfolding check_salt get_salt_filter_singleton test test_slots
new_to_receiver = refl

salt_sized : salt_size meta ≡ 16
unfolding salt_size
salt_sized = refl

packet_read_from-packet_write_to_example :
    ((y : Write (PacketConn (List ℕ) (List ℕ) (List (List ℕ)))) × (packet_write_to buffer ciph whole
          exact off recv post
          (7 ∷ 8 ∷ [])
          (2 ∷ [])
          sender
        ≡ returns y)
      × (y.count ≡ 2)
      × (y.next.conn ≡ salt ++ 0 ∷ 7 ∷ 8 ∷ []))
    × ((z : Received (PacketConn (List ℕ) (List ℕ) (List (List ℕ)))) × (packet_read_from buffer ciph
            whole exact off recv post 64 receiver
          ≡ returns z)
        × (z.got ≡ 7 ∷ 8 ∷ [])
        × (z.err ≡ none)
        × (z.from ≡ 1 ∷ []))
packet_read_from-packet_write_to_example =
    packet_read_from-packet_write_to buffer ciph whole exact off toy toy-IsAead (omega arith) recv
      post 64 (7 ∷ 8 ∷ []) (2 ∷ []) salt sender receiver ready sender-Drawn
      (rw salt_sized (omega arith)) keyed new_to_receiver (rw salt_sized (omega arith)) refl refl
