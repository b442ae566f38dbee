-- ===== src/Shadow/RoundTrip.antt =====
-- Both ends of m_shadow/stream.go together: what one side writes, in any calls, the other side reads.
use miniproxygo.Common.{
  ℕ, ◌+◌, ◌≡◌, refl, sym, ap, ap₂, ◌∙◌, subst, List, [], ◌∷◌, ◌++◌, length, append_assoc,
  append-nil, All, none, some, take_all, drop_all, arith, length-replicate,
}
use miniproxygo.Io.{Error, Reader, Writer, Sends, read_full}
use miniproxygo.Io.Full.{read_full_lem, read_full_ok}
use miniproxygo.Io.Network.{Conn, network, send, Incoming, Outgoing, network-Delivers, send-Sends}
use miniproxygo.Shadow.Aead.{Aead, IsAead}
use miniproxygo.Shadow.Nonce.{increment, zeros}
use miniproxygo.Shadow.Frame.{concat, IsPayload, box, frames, nonce_after, payload_size_mask}
use miniproxygo.Shadow.Writer.{Sealer, new_writer, write}
use miniproxygo.Shadow.Writer.Seal.{IsReady}
use miniproxygo.Shadow.Writer.Frames.{Sealed, write-Sealed, new_writer-IsReady}
use miniproxygo.Shadow.Reader.{new_reader, opener}
use miniproxygo.Shadow.Reader.Stream.{Carries, opener-Delivers}

pub concat-append : (ps qs : List (List ℕ)) → concat (ps ++ qs) ≡ concat ps ++ concat qs
concat-append [] qs = refl
concat-append (p ∷ ps) qs =
    ap (λ l. p ++ l) (concat-append ps qs) ∙ sym (append_assoc p (concat ps) (concat qs))

pub All-append :
    (ps qs : List (List ℕ)) → All IsPayload ps → All IsPayload qs → All IsPayload (ps ++ qs)
All-append [] qs h k = k
All-append (p ∷ ps) qs h k = (h.0, All-append ps qs h.1 k)

-- The records of two stretches of a stream in a row.
pub frames-append :
    (a : Aead) (nonce : List ℕ) (ps qs : List (List ℕ))
    → frames a nonce (ps ++ qs) ≡ frames a nonce ps ++ frames a (nonce_after nonce ps) qs
unfolding frames nonce_after
frames-append a nonce [] qs = refl
frames-append a nonce (p ∷ ps) qs =
    ap (λ l. box a nonce p ++ l) (frames-append a (increment (increment nonce)) ps qs)
    ∙ sym (append_assoc (box a nonce p) _ _)

module _ (a : Aead) {T : Type 0} (put : Writer T) where
  -- Calls of `Write` in a row: the writer and the sink behind them.
  unfoldable pub write_all : List (List ℕ) → Sealer → T → Sealer × T
  write_all [] w t = (w, t)
  write_all (b ∷ bs) w t = let x = write a put b w t in write_all bs x.cipher x.sink

-- The bytes `out` are a stream of records that begins at `nonce` and carries `bs`.
pub record Stream (a : Aead) (nonce bs out : List ℕ) : Type 0 where
  pub records : List (List ℕ)
  pub payloads : All IsPayload records
  pub same_bytes : concat records ≡ bs
  pub same_out : frames a nonce records ≡ out

module _ (a : Aead) (laws : IsAead a) {T : Type 0} (put : Writer T) (Sent : T → List ℕ → Type 0)
    (O : Sends put Sent) where
  -- Any calls of `Write` add one stream of records over all their bytes to what the sink has sent.
  pub write_all-Stream :
      (bs : List (List ℕ)) (w : Sealer) (t : T) (out : List ℕ)
      → Sent t out
      → IsReady a w
      → (more : List ℕ) × Sent (write_all a put bs w t).1 (out ++ more)
        × Stream a w.nonce (concat bs) more
  unfolding write_all frames
  write_all-Stream [] w t out o ready = (
    [],
    subst (Sent t) (sym (append-nil out)) o,
    record { records = []; payloads = tt; same_bytes = refl; same_out = refl },
  )
  write_all-Stream (b ∷ bs) w t out o ready =
      let first : Sealed a Sent 0 w.nonce b out (write a put b w t) =
        write-Sealed a laws put Sent O b w t out o ready in
      let (more, sent, rest) =
        write_all-Stream bs (write a put b w t).cipher (write a put b w t).sink
          (out ++ frames a w.nonce first.records) first.sent first.ready in
      (
        frames a w.nonce first.records ++ more,
        subst (Sent _) (append_assoc out (frames a w.nonce first.records) more) sent,
        record {
          records = first.records ++ rest.records;
          payloads = All-append first.records rest.records first.payloads rest.payloads;
          same_bytes =
              concat-append first.records rest.records
              ∙ ap₂ (◌++◌) first.same_bytes rest.same_bytes;
          same_out =
              frames-append a w.nonce first.records rest.records
              ∙ ap (λ l. frames a w.nonce first.records ++ l)
                  (ap (λ m. frames a m rest.records) (sym first.nonce_moved) ∙ rest.same_out);
        },
      )

-- A new reader whose source holds a stream from the first nonce on delivers what the stream carries.
pub new_reader-Carries :
    (a : Aead) {S : Type 0} (r : Reader S) (Holds : S → List ℕ → Type 0) (s : S) (bs wire : List ℕ)
    → Stream a (zeros a.nonce_size) bs wire
    → Holds s wire
    → Carries a Holds (new_reader a r s) bs
unfolding new_reader
new_reader-Carries a r Holds s bs wire stream h = record {
  records = stream.records;
  payloads = stream.payloads;
  plain = stream.same_bytes;
  ciphertext = subst (Holds s) (sym stream.same_out) h;
  nonce_fits = length-replicate a.nonce_size 0;
  buf_fits = length-replicate (payload_size_mask + a.overhead) 0;
  left_fits = omega arith;
}

-- What is sent over one connection by any calls of `Write`, delivered over another one in any
-- pieces, is what a reader at the other end gets: all the bytes in order, and then the end.
pub opener-write_all :
    (a : Aead) (laws : IsAead a) (bs : List (List ℕ)) (c c' : Conn)
    → Outgoing c []
    → Incoming c' (write_all a send bs (new_writer a) c).1.outgoing
    → let x = read_full (opener a network) (length (concat bs)) (new_reader a network c') in
      (x.got ≡ concat bs)
      × (x.err ≡ none)
      × ((read_full (opener a network) 1 x.next).err ≡ some Error.eof)
opener-write_all a laws bs c c' o arrives =
    let (wire, sent, stream) =
      write_all-Stream a laws send Outgoing send-Sends bs (new_writer a) c [] o
        (new_writer-IsReady a) in
    let start =
      new_reader-Carries a network Incoming c' (concat bs) wire (unfold new_writer in stream)
        (arrives.0, arrives.1 ∙ sent.1) in
    let D = opener-Delivers a laws network Incoming network-Delivers in
    let full =
      read_full_ok (opener a network) (Carries a Incoming) D (length (concat bs))
        (new_reader a network c') (concat bs) start (omega arith) in
    let last = read_full_lem (opener a network) (Carries a Incoming) D 1 _ [] (
      subst (Carries a Incoming _) (drop_all (length (concat bs)) (concat bs) (omega arith))
        full.2) in
    (full.0 ∙ take_all (length (concat bs)) (concat bs) (omega arith), full.1, last.1)
