-- ===== src/Shadow/Runs.antt =====
-- Small runs of the encrypted stream, and its theorems at concrete inputs.
use miniproxygo.Common.{
  ℕ, List, ◌≡◌, ◌++◌, length, All, refl, sym, [], ◌∷◌, none, some, arith, false,
}
use miniproxygo.Io.{Error, read_full}
use miniproxygo.Io.Buffer.{buffer}
use miniproxygo.Io.Network.{
  chunk, fault, network-Feeds, Pending, Conn, network, send, Incoming, Outgoing, network-Delivers,
  send-Sends,
}
use miniproxygo.Shadow.Toy.{toy, toy-IsAead, toy-Stream, toy-Shrinks}
use miniproxygo.Shadow.Nonce.{increment, zeros}
use miniproxygo.Shadow.Frame.{concat, IsPayload}
use miniproxygo.Shadow.Writer.{new_writer, write, seal_record}
use miniproxygo.Shadow.Writer.Frames.{Sealed, new_writer-IsReady, write-Sealed}
use miniproxygo.Shadow.Reader.{new_reader, opener, read_record, read_box}
use miniproxygo.Shadow.Reader.Stream.{Carries}
use miniproxygo.Shadow.Reader.WriteTo.{Copied, flush_leftover, drain, write_to, write_to-Copied}
use miniproxygo.Shadow.Reader.Authentic.{
  AllAuthentic, Carried, wire_of, payloads_of, write_to-AllAuthentic,
}
use miniproxygo.Shadow.Distinct.{Distinct, plains, seal_each, write_all-Distinct}
use miniproxygo.Shadow.RoundTrip.{write_all, opener-write_all, new_reader-Carries}

abbrev idle : Conn
idle = record { incoming = []; outgoing = []; refusals = []; closed = false }

-- The record for the payload 7, 8, in three pieces.
abbrev arriving : Conn
arriving = record idle {
  incoming = chunk (0 ∷ 0 ∷ []) ∷ chunk (2 ∷ 1 ∷ 7 ∷ []) ∷ chunk (8 ∷ []) ∷ [];
}

increment_carries : increment (255 ∷ 7 ∷ []) ≡ 0 ∷ 8 ∷ []
unfolding increment
increment_carries = refl

write_all-Distinct_example :
    (records : List (List ℕ)) × (nonces : List (List ℕ)) × All IsPayload records
    × (concat records ≡ 7 ∷ 8 ∷ 9 ∷ [])
    × (length nonces ≡ length (plains records))
    × Distinct nonces
    × Outgoing
        (write_all toy send ((7 ∷ 8 ∷ []) ∷ (9 ∷ []) ∷ []) (new_writer toy) idle).1
        (seal_each toy nonces (plains records))
write_all-Distinct_example =
    write_all-Distinct toy toy-IsAead send Outgoing send-Sends ((7 ∷ 8 ∷ []) ∷ (9 ∷ []) ∷ []) idle
      [] (refl, refl) (omega arith)

write-Sealed_example :
    Sealed toy Outgoing 0
      (new_writer toy).nonce
      (7 ∷ 8 ∷ [])
      []
      (write toy send (7 ∷ 8 ∷ []) (new_writer toy) idle)
write-Sealed_example =
    write-Sealed toy toy-IsAead send Outgoing send-Sends (7 ∷ 8 ∷ []) (new_writer toy) idle []
      (refl, refl) (new_writer-IsReady toy)

arriving-Carries : Carries toy Incoming (new_reader toy network arriving) (7 ∷ 8 ∷ [])
arriving-Carries =
    new_reader-Carries toy network Incoming arriving (7 ∷ 8 ∷ []) (0 ∷ 0 ∷ 2 ∷ 1 ∷ 7 ∷ 8 ∷ [])
      toy-Stream (tt, refl)

sent_wire :
    (write_all toy send ((7 ∷ 8 ∷ []) ∷ []) (new_writer toy) idle).1.outgoing
    ≡ 0 ∷ 0 ∷ 2 ∷ 1 ∷ 7 ∷ 8 ∷ []
unfolding write_all write new_writer seal_record increment send buffer
sent_wire = refl

opener-write_all_example :
    let x = read_full (opener toy network) 2 (new_reader toy network arriving) in
    (x.got ≡ 7 ∷ 8 ∷ [])
    × (x.err ≡ none)
    × ((read_full (opener toy network) 1 x.next).err ≡ some Error.eof)
opener-write_all_example =
    opener-write_all toy toy-IsAead ((7 ∷ 8 ∷ []) ∷ []) idle arriving (refl, refl)
      (tt, sym sent_wire)

write_to-Copied_example :
    Copied Outgoing 0
      (7 ∷ 8 ∷ [])
      []
      (write_to toy network send (new_reader toy network arriving) idle)
write_to-Copied_example =
    write_to-Copied toy toy-IsAead network send Incoming Outgoing network-Delivers send-Sends
      (new_reader toy network arriving) (7 ∷ 8 ∷ []) idle [] arriving-Carries (refl, refl)

-- A record, another one that nobody has sealed, and a fault.
abbrev forged : Conn
forged = record idle {
  incoming = chunk (0 ∷ 0 ∷ 2 ∷ 1 ∷ 7 ∷ 8 ∷ []) ∷ chunk (2 ∷ 0 ∷ 1 ∷ 9 ∷ 66 ∷ []) ∷ fault 104 ∷ [];
}

write_to-AllAuthentic_example :
    (qs : List Carried) × (rest : List ℕ) × AllAuthentic toy (zeros 1) qs
    × (wire_of qs ++ rest ≡ 0 ∷ 0 ∷ 2 ∷ 1 ∷ 7 ∷ 8 ∷ 2 ∷ 0 ∷ 1 ∷ 9 ∷ 66 ∷ [])
    × Outgoing
        (write_to toy network send (new_reader toy network forged) idle).sink
        (payloads_of qs)
write_to-AllAuthentic_example =
    write_to-AllAuthentic toy toy-Shrinks network Pending network-Feeds send Outgoing send-Sends
      forged idle (0 ∷ 0 ∷ 2 ∷ 1 ∷ 7 ∷ 8 ∷ 2 ∷ 0 ∷ 1 ∷ 9 ∷ 66 ∷ []) [] refl (refl, refl)

-- Only the first one gets through.
forged_stopped :
    (write_to toy network send (new_reader toy network forged) idle).sink.outgoing ≡ 7 ∷ 8 ∷ []
unfolding write_to flush_leftover new_reader drain read_record read_box read_full network increment
    send
forged_stopped = refl
