-- ===== src/Shadow/Writer/Frames.antt =====
-- What the writer sends is a sequence of records over exactly the bytes that it was given.
use miniproxygo.Common.{
  ℕ, zero, suc, ◌+◌, ◌<◌, ◌≡◌, refl, sym, ap, ap₂, ◌∙◌, subst, List, [], ◌∷◌, ◌++◌, length, drop,
  arith, append_assoc, append-nil, length-append, All, none, true, false, inl, inr, Bool-cases,
  ◌==◌, ==_iff, length-replicate,
}
use miniproxygo.Io.{Read, Reader, Writer, Step, Delivers, Sends}
use miniproxygo.Io.Full.{prefix_nil}
use miniproxygo.Io.Buffer.{buffer, Holding, buffer-Delivers}
use miniproxygo.Shadow.Aead.{Aead, IsAead}
use miniproxygo.Shadow.Nonce.{increment}
use miniproxygo.Shadow.Frame.{payload_size_mask, concat, IsPayload, box, frames, nonce_after}
use miniproxygo.Shadow.Writer.{
  Sealer, Pumped, new_writer, seal_record, frame_of, pump, read_from, write,
}
use miniproxygo.Shadow.Writer.Seal.{IsReady, seal_record-box}

pub new_writer-IsReady : (a : Aead) → IsReady a (new_writer a)
unfolding new_writer
new_writer-IsReady a = record {
  nonce_fits = length-replicate a.nonce_size 0;
  buf_fits = length-replicate _ 0;
}

-- How `ReadFrom` ends when it has `bs` to send, has counted `n` bytes before and begins at `nonce`.
-- `records` are the payloads that it has cut `bs` into.
pub record Sealed {S T : Type 0} (a : Aead) (Sent : T → List ℕ → Type 0) (n : ℕ)
    (nonce bs out : List ℕ) (x : Pumped S T) : Type 0 where
  pub records : List (List ℕ)
  pub payloads : All IsPayload records
  pub same_bytes : concat records ≡ bs
  pub counted : x.total ≡ n + length bs
  pub no_error : x.err ≡ none
  pub sent : Sent x.sink (out ++ frames a nonce records)
  pub nonce_moved : x.cipher.nonce ≡ nonce_after nonce records
  pub ready : IsReady a x.cipher

module _ (a : Aead) (laws : IsAead a) {S T : Type 0} (r : Reader S) (put : Writer T)
    (Holds : S → List ℕ → Type 0) (Sent : T → List ℕ → Type 0) (D : Delivers r Holds)
    (O : Sends put Sent) where
  pump-Sealed :
      (fuel n : ℕ) (w : Sealer) (s : S) (t : T) (bs out : List ℕ)
      → r.budget s < fuel
      → Holds s bs
      → Sent t out
      → IsReady a w
      → Sealed a Sent n w.nonce bs out (pump a r put fuel n w s t)
  unfolding pump frames nonce_after
  pump-Sealed zero n w s t bs out b h o ready = absurd (omega arith)
  pump-Sealed (suc fuel) n w s t bs out b h o ready = elim st.verdict [
    | inl (ok, less) ↦ elim (Bool-cases (length x.got == 0)) [
      | inl nothing ↦
          rw (nothing, ok)
            (pump-Sealed fuel n w x.next t bs out (omega arith)
              (subst (Holds x.next) (ap (λ k. drop k bs) ((==_iff _ _).0 nothing)) st.holds) o
              ready)
      | inr something ↦
          rw (something, ok, written.0)
            (further something (
              pump-Sealed fuel (n + length x.got) w' x.next
                (put (frame_of a (length x.got) w') t).next (drop (length x.got) bs)
                (out ++ frame_of a (length x.got) w') (omega arith) st.holds written.2 made.2))
    ]
    | inr (ended, empty) ↦
        rw (no_bytes empty, ended)
          (record {
            records = [];
            payloads = tt;
            same_bytes = sym empty;
            counted = omega (arith, ap length empty);
            no_error = refl;
            sent = subst (Sent t) (sym (append-nil out)) o;
            nonce_moved = refl;
            ready = ready;
          })
  ]
    where
      x : Read S
      x = r.read payload_size_mask s

      st : Step r Holds payload_size_mask s bs x
      st = D payload_size_mask s bs (omega arith) h

      w' : Sealer
      w' = seal_record a x.got w

      written :
          ((put (frame_of a (length x.got) w') t).err ≡ none)
          × ((put (frame_of a (length x.got) w') t).count ≡ length (frame_of a (length x.got) w'))
          × Sent (put (frame_of a (length x.got) w') t).next (out ++ frame_of a (length x.got) w')
      written = O t out (frame_of a (length x.got) w') o

      made :
          (frame_of a (length x.got) w' ≡ box a w.nonce x.got)
          × (w'.nonce ≡ increment (increment w.nonce))
          × IsReady a w'
      made = seal_record-box a laws x.got w st.fits ready

      no_bytes : bs ≡ [] → (length x.got == 0) ≡ true
      no_bytes e = (==_iff _ _).1 (ap length (prefix_nil x.got bs st.in_order e))

      further :
          {y : Pumped S T}
          → (length x.got == 0) ≡ false
          → Sealed a Sent
              (n + length x.got)
              w'.nonce
              (drop (length x.got) bs)
              (out ++ frame_of a (length x.got) w')
              y
          → Sealed a Sent n w.nonce bs out y
      further {y} something f = record {
        records = x.got ∷ f.records;
        payloads = ((ground arith, st.fits), f.payloads);
        same_bytes = ap (λ l. x.got ++ l) f.same_bytes ∙ st.in_order;
        counted =
            omega (
              arith,
              f.counted,
              ap length st.in_order,
              length-append x.got (drop (length x.got) bs),
            );
        no_error = f.no_error;
        sent =
            subst (Sent y.sink)
              (append_assoc out (frame_of a (length x.got) w') (frames a w'.nonce f.records)
                ∙ ap (λ l. out ++ l) (ap₂ (λ l m. l ++ frames a m f.records) made.0 made.1))
              f.sent;
        nonce_moved = f.nonce_moved ∙ ap (λ m. nonce_after m f.records) made.1;
        ready = f.ready;
      }

  pub read_from-Sealed :
      (w : Sealer) (s : S) (t : T) (bs out : List ℕ)
      → Holds s bs
      → Sent t out
      → IsReady a w
      → Sealed a Sent 0 w.nonce bs out (read_from a r put w s t)
  unfolding read_from
  read_from-Sealed w s t bs out h o ready =
      pump-Sealed (suc (r.budget s)) 0 w s t bs out (omega arith) h o ready

-- `Write(b)` on a writer that is ready, over a sink that fails no call: it reports `len(b)` bytes and
-- no error, and what it adds to the sink is the records of some cut of `b` into payloads of 1 to
-- 16383 bytes, sealed under consecutive nonces; the writer is ready for the next call.
pub write-Sealed :
    (a : Aead) (laws : IsAead a) {T : Type 0} (put : Writer T) (Sent : T → List ℕ → Type 0)
    → Sends put Sent
    → (b : List ℕ) (w : Sealer) (t : T) (out : List ℕ) → Sent t out
    → IsReady a w
    → Sealed a Sent 0 w.nonce b out (write a put b w t)
unfolding write
write-Sealed a laws put Sent O b w t out o ready =
    read_from-Sealed a laws buffer put Holding Sent buffer-Delivers O w b t b out refl o ready
