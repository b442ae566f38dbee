-- ===== src/Shadow/Conn/Both/After.antt =====
-- `streamConn` of m_shadow/stream.go in both directions, once a call has gone through in one of them.
use miniproxygo.Common.{
  ℕ, ◌+◌, ◌*◌, ◌^◌, ◌≡◌, sym, ap₂, ◌∙◌, subst, false, ◌⊎◌, inl, inr, Option, none, some, List, ◌++◌,
  length,
}
use miniproxygo.Io.{Reader, Write, Writer}
use miniproxygo.Io.Network.{Duplex}
use miniproxygo.Internal.Outcome.{Outcome, returns}
use miniproxygo.Internal.Filter.{Filter}
use miniproxygo.Internal.SaltFilter.{Floats, Env, check_salt}
use miniproxygo.Shadow.Aead.{Aead, IsAead}
use miniproxygo.Shadow.Frame.{frames}
use miniproxygo.Shadow.Cipher.{Cipher}
use miniproxygo.Shadow.Writer.{Sealer}
use miniproxygo.Shadow.Reader.{Opener}
use miniproxygo.Shadow.Conn.{StreamConn, kept, conn_budget}
use miniproxygo.Shadow.Conn.Reading.{Attached, Arriving}
use miniproxygo.Shadow.Conn.Both.{Writing, Both}
use miniproxygo.Shadow.Conn.Both.Writes.{Wrote}

module _ {S Q R F : Type 0} (net : Reader S) (put : Writer S) (rand : Reader Q) (ciph : Cipher)
    (x : Floats R) (f : Filter R F) (env : Env) (Live : S → List ℕ → List ℕ → Type 0)
    (DS : Duplex net put Live) (a : Aead) (laws : IsAead a) (a' : Aead) (laws' : IsAead a')
    (salt : List ℕ) where
  -- A read leaves the writing half as it was.
  pub Writing-read :
      (c d : StreamConn S Q F) (out raw : List ℕ)
      → ((o : Aead × Opener S) × (c.r ≡ some o)) ⊎ ((w : Aead × Sealer) × (c.w ≡ some w))
      → d.w ≡ c.w
      → d.random ≡ c.random
      → (c.r ≡ none) ⊎ (d.salts ≡ c.salts)
      → Writing net put rand ciph x f env a' salt c out raw
      → Writing net put rand ciph x f env a' salt d out raw
  Writing-read c d out raw begun sw sr ss (inr w) = inr (record {
    writer = w.writer;
    set = sw ∙ w.set;
    ready = w.ready;
    records = w.records;
    payloads = w.payloads;
    same_bytes = w.same_bytes;
    due = w.due;
    same_raw = w.same_raw;
  })
  Writing-read c d out raw (inr (w, has)) sw sr ss (inl (l, no_out, no_raw)) =
      cc (l.nothing_written)
  Writing-read c d out raw (inl (o, has)) sw sr (inl unread) (inl (l, no_out, no_raw)) = cc
  Writing-read c d out raw (inl (o, has)) sw sr (inr ss) (inl (l, no_out, no_raw)) = inl (
    record {
      salts = l.salts;
      nothing_written = sw ∙ l.nothing_written;
      drawn = rw sr l.drawn;
      no_error = rw sr l.no_error;
      keyed = l.keyed;
      recorded = rw ss l.recorded;
    },
    no_out,
    no_raw,
  )

  -- The connection once `p` has been written.
  abbrev pub After :
      StreamConn S Q F → List ℕ → List ℕ → List ℕ → Outcome (Write (StreamConn S Q F)) → Type 0
  After c p bs out m =
      (y : Write (StreamConn S Q F)) × (m ≡ returns y)
      × (y.err ≡ none)
      × (y.count ≡ length p)
      × Both net put rand ciph x f env Live a a' salt y.next bs (out ++ p)
      × (conn_budget net y.next ≡ conn_budget net c)
      × ((w : Sealer) × (y.next.w ≡ some (a', w)))

  abbrev pub Writes :
      StreamConn S Q F → List ℕ → List ℕ → List ℕ → Outcome (Write (StreamConn S Q F)) → Type 0
  Writes c p out raw m =
      (rb : List ℕ)
      → Live c.conn rb raw
      → Wrote net put rand ciph x f env Live DS a' laws' salt c p out rb m

  same_budget :
      (c d : StreamConn S Q F)
      → net.budget d.conn ≡ net.budget c.conn
      → d.r ≡ c.r
      → conn_budget net d ≡ conn_budget net c
  same_budget c d e sr = ap₂ (λ m (k : Option (Aead × Opener S)). m * 2 ^ 14 + kept k) e sr

  Attached-After :
      (c : StreamConn S Q F) (p bs out : List ℕ)
      (b : Both net put rand ciph x f env Live a a' salt c bs out)
      (m : Outcome (Write (StreamConn S Q F)))
      → Writes c p out b.raw m
      → Attached net put rand ciph x f env (λ s w. Live s w b.raw) a c bs
      → After c p bs out m
  Attached-After c p bs out b m ws (o, has, carries) =
      let w = ws (frames a o.nonce carries.records) carries.ciphertext in
      (
        w.result,
        w.returned,
        w.no_error,
        w.counted,
        record {
          raw = w.raw;
          reading = inl (
            o,
            w.same_r ∙ has,
            record {
              records = carries.records;
              payloads = carries.payloads;
              plain = carries.plain;
              ciphertext = w.live;
              nonce_fits = carries.nonce_fits;
              buf_fits = carries.buf_fits;
              left_fits = carries.left_fits;
            },
          );
          writing = inr w.written;
          begun = inl ((a, o), w.same_r ∙ has);
        },
        same_budget c w.result.next w.unspent w.same_r,
        (w.written.writer, w.written.set),
      )

  -- Where nothing has been read, the writer has begun, and its call leaves the salt filter alone.
  salts_kept :
      (c d : StreamConn S Q F)
      → ((o : Aead × Opener S) × (c.r ≡ some o)) ⊎ ((w : Aead × Sealer) × (c.w ≡ some w))
      → c.r ≡ none
      → (c.w ≡ none) ⊎ (d.salts ≡ c.salts)
      → d.salts ≡ c.salts
  salts_kept c d begun unread (inr e) = e
  salts_kept c d (inl (o, has)) unread (inl unwritten) = cc
  salts_kept c d (inr (w, has)) unread (inl unwritten) = cc

  Arriving-After :
      (c : StreamConn S Q F) (p bs out : List ℕ)
      (b : Both net put rand ciph x f env Live a a' salt c bs out)
      (m : Outcome (Write (StreamConn S Q F)))
      → Writes c p out b.raw m
      → Arriving net put rand ciph x f env (λ s w. Live s w b.raw) a c bs
      → After c p bs out m
  Arriving-After c p bs out b m ws h =
      let w = ws (h.salt ++ h.wire) h.input in
      (
        w.result,
        w.returned,
        w.no_error,
        w.counted,
        record {
          raw = w.raw;
          reading = inr (record {
            salt = h.salt;
            wire = h.wire;
            salts = h.salts;
            nothing_read = w.same_r ∙ h.nothing_read;
            salt_fits = h.salt_fits;
            not_empty = h.not_empty;
            keyed = h.keyed;
            new_salt =
                subst (λ z. check_salt x f env h.salt z ≡ returns (false, h.salts))
                  (sym (salts_kept c w.result.next b.begun h.nothing_read w.same_salts)) h.new_salt;
            input = w.live;
            carried = h.carried;
          });
          writing = inr w.written;
          begun = inr ((a', w.written.writer), w.written.set);
        },
        same_budget c w.result.next w.unspent w.same_r,
        (w.written.writer, w.written.set),
      )

  -- A call that takes all of `p` whatever the input is keeps the connection in both directions.
  pub Wrote-After :
      (c : StreamConn S Q F) (p bs out : List ℕ)
      (b : Both net put rand ciph x f env Live a a' salt c bs out)
      (m : Outcome (Write (StreamConn S Q F)))
      → Writes c p out b.raw m
      → After c p bs out m
  Wrote-After c p bs out b m ws = elim b.reading [
    | inl held ↦ Attached-After c p bs out b m ws held
    | inr h ↦ Arriving-After c p bs out b m ws h
  ]
