-- ===== src/Shadow/Conn/Both/Sent.antt =====
-- One record more from a `streamConn` of m_shadow/stream.go, as a round of `ReadFrom` sends it.
use miniproxygo.Common.{
  ℕ, ◌≡◌, refl, sym, ap, ap₂, ◌∙◌, subst, inl, inr, Option, none, some, List, [], ◌∷◌, ◌++◌, length,
  append-nil, append_assoc,
}
use miniproxygo.Io.{Reader, Write, Writer}
use miniproxygo.Io.Network.{Duplex}
use miniproxygo.Internal.Outcome.{returns}
use miniproxygo.Internal.Filter.{Filter}
use miniproxygo.Internal.SaltFilter.{Floats, Env}
use miniproxygo.Shadow.Aead.{Aead, IsAead}
use miniproxygo.Shadow.Nonce.{increment}
use miniproxygo.Shadow.Frame.{IsPayload, box, frames, nonce_after}
use miniproxygo.Shadow.Cipher.{Cipher}
use miniproxygo.Shadow.Writer.{Sealer, seal_record, frame_of}
use miniproxygo.Shadow.Writer.Seal.{seal_record-box}
use miniproxygo.Shadow.RoundTrip.{concat-append, All-append, frames-append}
use miniproxygo.Shadow.Conn.{StreamConn, conn_budget}
use miniproxygo.Shadow.Conn.Both.{Both, Written, Writing}
use miniproxygo.Shadow.Conn.Both.Writes.{Wrote, Kept-Sends, nonce_after-append}
use miniproxygo.Shadow.Conn.Both.After.{Wrote-After}

module _ {S Q R F : Type 0} (net : Reader S) (put : Writer S) (rand : Reader Q) (ciph : Cipher)
    (x : Floats R) (f : Filter R F) (env : Env) (Live : S → List ℕ → List ℕ → Type 0)
    (DS : Duplex net put Live) (a : Aead) (laws : IsAead a) (a' : Aead) (laws' : IsAead a')
    (salt : List ℕ) where
  -- One more record on the wire.
  abbrev pub sealed : StreamConn S Q F → Sealer → List ℕ → Write S
  sealed c w got = put (frame_of a' (length got) (seal_record a' got w)) c.conn

  abbrev pub behind : StreamConn S Q F → Sealer → List ℕ → StreamConn S Q F
  behind c w got = record c { conn = (sealed c w got).next; w = some (a', seal_record a' got w) }

  record_sent :
      (c : StreamConn S Q F) (got out raw rb : List ℕ) (w : Written a' salt c out raw)
      → IsPayload got
      → Live c.conn rb raw
      → Wrote net put rand ciph x f env Live DS a' laws' salt c got out rb (
          returns (record {
            count = length got;
            err = (sealed c w.writer got).err;
            next = behind c w.writer got;
          }))
  unfolding frames nonce_after
  record_sent c got out raw rb w payload live =
      let O = Kept-Sends net put rand ciph x f env Live DS a' laws' salt rb (net.budget c.conn) in
      let made = seal_record-box a' laws' got w.writer payload.1 w.ready in
      let sent =
        O c.conn raw (frame_of a' (length got) (seal_record a' got w.writer)) (live, refl) in
      record {
        result = _;
        returned = refl;
        no_error = sent.0;
        counted = refl;
        raw = raw ++ frame_of a' (length got) (seal_record a' got w.writer);
        live = sent.2.0;
        written = record {
          writer = seal_record a' got w.writer;
          set = refl;
          ready = made.2;
          records = w.records ++ got ∷ [];
          payloads = All-append w.records (got ∷ []) w.payloads (payload, tt);
          same_bytes =
              concat-append w.records (got ∷ []) ∙ ap₂ (◌++◌) w.same_bytes (append-nil got);
          due =
              made.1
              ∙ ap (λ m. increment (increment m)) w.due
              ∙ sym (nonce_after-append _ w.records (got ∷ []));
          same_raw =
              ap (λ l. salt ++ l) (frames-append a' _ w.records (got ∷ []))
              ∙ sym (append_assoc salt _ _)
              ∙ ap₂ (λ l m. l ++ frames a' m (got ∷ [])) w.same_raw (sym w.due)
              ∙ ap (λ l. raw ++ l) (append-nil (box a' w.writer.nonce got) ∙ sym made.0);
        };
        same_r = refl;
        same_salts = inr refl;
        unspent = sent.2.1;
      }

  -- A connection whose writer exists has written, so that its state is known.
  writer_of :
      (c : StreamConn S Q F) (out raw : List ℕ) (w : Sealer)
      → c.w ≡ some (a', w)
      → Writing net put rand ciph x f env a' salt c out raw
      → (h : Written a' salt c out raw) × (h.writer ≡ w)
  writer_of c out raw w set (inr h) =
      let e : ◌≡◌ {A = Option (Aead × Sealer)} (some (a', h.writer)) (some (a', w)) =
        sym h.set ∙ set in
      (h, cc (e))
  writer_of c out raw w set (inl (l, no_out, no_raw)) = cc (l.nothing_written, set)

  pub record_sent-Both :
      (c : StreamConn S Q F) (w : Sealer) (got bs out : List ℕ)
      → c.w ≡ some (a', w)
      → IsPayload got
      → Both net put rand ciph x f env Live a a' salt c bs out
      → ((sealed c w got).err ≡ none)
        × Both net put rand ciph x f env Live a a' salt (behind c w got) bs (out ++ got)
        × (conn_budget net (behind c w got) ≡ conn_budget net c)
  record_sent-Both c w got bs out set payload b =
      let (h, same) = writer_of c out b.raw w set b.writing in
      let call : Sealer → Write (StreamConn S Q F) =
        λ v. record { count = length got; err = (sealed c v got).err; next = behind c v got } in
      let (y, ran, fine, all, both, unspent, more) =
        Wrote-After net put rand ciph x f env Live DS a laws a' laws' salt c got bs out b
          (returns (call h.writer)) (λ rb live. record_sent c got out b.raw rb h payload live) in
      let k : call w ≡ y = ap call (sym same) ∙ returned_same ran in
      (
        ap (λ z. z.err) k ∙ fine,
        subst (λ z. Both net put rand ciph x f env Live a a' salt z bs (out ++ got))
            (sym (ap (λ z. z.next) k)) both,
        ap (λ z. conn_budget net z.next) k ∙ unspent,
      )
    where
      returned_same : {y z : Write (StreamConn S Q F)} → returns y ≡ returns z → y ≡ z
      returned_same {y} {z} e = cc (e)
