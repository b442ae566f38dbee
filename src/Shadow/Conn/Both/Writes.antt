-- ===== src/Shadow/Conn/Both/Writes.antt =====
-- What a call of `Write` leaves of a `streamConn` in m_shadow/stream.go, the first one and any other.
use miniproxygo.Common.{
  ℕ, ◌≡◌, refl, sym, ap, ap₂, ◌∙◌, subst, ◌⊎◌, inl, inr, none, some, List, [], ◌∷◌, ◌++◌, length,
  append_assoc, append-nil, arith,
}
use miniproxygo.Io.{Reader, Write, Writer, Sends}
use miniproxygo.Io.Network.{Duplex}
use miniproxygo.Internal.Outcome.{Outcome, returns}
use miniproxygo.Internal.Filter.{Filter}
use miniproxygo.Internal.SaltFilter.{Floats, Env}
use miniproxygo.Shadow.Aead.{Aead, IsAead}
use miniproxygo.Shadow.Nonce.{increment}
use miniproxygo.Shadow.Frame.{frames, nonce_after}
use miniproxygo.Shadow.Cipher.{Cipher}
use miniproxygo.Shadow.Writer.{new_writer, write}
use miniproxygo.Shadow.Writer.Frames.{new_writer-IsReady, write-Sealed}
use miniproxygo.Shadow.RoundTrip.{concat-append, All-append, frames-append}
use miniproxygo.Shadow.Conn.{StreamConn, write_conn, write_through}
use miniproxygo.Shadow.Conn.Writing.{init_writer-Writing, write_conn-set, write_conn_first}
use miniproxygo.Shadow.Conn.Both.{Written, Fresh, Writing}

pub nonce_after-append :
    (nonce : List ℕ) (ps qs : List (List ℕ))
    → nonce_after nonce (ps ++ qs) ≡ nonce_after (nonce_after nonce ps) qs
unfolding nonce_after
nonce_after-append nonce [] qs = refl
nonce_after-append nonce (p ∷ ps) qs = nonce_after-append (increment (increment nonce)) ps qs

module _ {S Q R F : Type 0} (net : Reader S) (put : Writer S) (rand : Reader Q) (ciph : Cipher)
    (x : Floats R) (f : Filter R F) (env : Env) (Live : S → List ℕ → List ℕ → Type 0)
    (DS : Duplex net put Live) (a' : Aead) (laws' : IsAead a') (salt : List ℕ) where
  -- With the network's input and budget held fixed, its writes are those of a sink.
  abbrev pub Kept : List ℕ → ℕ → S → List ℕ → Type 0
  Kept rb k s o = Live s rb o × (net.budget s ≡ k)

  pub Kept-Sends : (rb : List ℕ) (k : ℕ) → Sends put (Kept rb k)
  Kept-Sends rb k t out p (live, same) =
      let d = DS.sends t rb out p live in
      (d.0, DS.counts t rb out p live, (d.1, DS.unspent t rb out p live ∙ same))

  -- A call of `Write` that has taken all of `p`.
  pub record Wrote (c : StreamConn S Q F) (p out rb : List ℕ)
      (m : Outcome (Write (StreamConn S Q F))) : Type 0 where
    pub result : Write (StreamConn S Q F)
    pub returned : m ≡ returns result
    pub no_error : result.err ≡ none
    pub counted : result.count ≡ length p
    pub raw : List ℕ
    pub live : Live result.next.conn rb raw
    pub written : Written a' salt result.next (out ++ p) raw
    pub same_r : result.next.r ≡ c.r
    pub same_salts : (c.w ≡ none) ⊎ (result.next.salts ≡ c.salts)
    pub unspent : net.budget result.next.conn ≡ net.budget c.conn

  write_conn-Wrote :
      (c : StreamConn S Q F) (p out raw rb : List ℕ)
      → Written a' salt c out raw
      → Live c.conn rb raw
      → Wrote c p out rb (write_conn net put rand ciph x f env p c)
  unfolding write_through
  write_conn-Wrote c p out raw rb w live =
      let sink = Kept rb (net.budget c.conn) in
      let O = Kept-Sends rb (net.budget c.conn) in
      let y = write a' put p w.writer c.conn in
      let sealed = write-Sealed a' laws' put sink O p w.writer c.conn raw (live, refl) w.ready in
      record {
        result = record {
          count = y.total;
          err = y.err;
          next = record c { conn = y.sink; w = some (a', y.cipher) };
        };
        returned = write_conn-set net put rand ciph x f env sink O a' laws' p c w.writer w.set;
        no_error = sealed.no_error;
        counted = omega (arith, sealed.counted);
        raw = raw ++ frames a' w.writer.nonce sealed.records;
        live = sealed.sent.0;
        written = record {
          writer = y.cipher;
          set = refl;
          ready = sealed.ready;
          records = w.records ++ sealed.records;
          payloads = All-append w.records sealed.records w.payloads sealed.payloads;
          same_bytes =
              concat-append w.records sealed.records ∙ ap₂ (◌++◌) w.same_bytes sealed.same_bytes;
          due =
              sealed.nonce_moved
              ∙ ap (λ m. nonce_after m sealed.records) w.due
              ∙ sym (nonce_after-append _ w.records sealed.records);
          same_raw =
              ap (λ l. salt ++ l) (frames-append a' _ w.records sealed.records)
              ∙ sym (append_assoc salt _ _)
              ∙ ap₂ (λ l m. l ++ frames a' m sealed.records) w.same_raw (sym w.due);
        };
        same_r = refl;
        same_salts = inr refl;
        unspent = sealed.sent.1;
      }

  -- Behind `initWriter`.
  pub begun-Written :
      (c : StreamConn S Q F) → c.w ≡ some (a', new_writer a') → Written a' salt c [] salt
  unfolding new_writer nonce_after frames
  begun-Written c has = record {
    writer = new_writer a';
    set = has;
    ready = new_writer-IsReady a';
    records = [];
    payloads = tt;
    same_bytes = refl;
    due = refl;
    same_raw = append-nil salt;
  }

  -- The filter has the salt that the call has sent.
  pub first-Wrote :
      (c : StreamConn S Q F) (p out raw rb : List ℕ)
      (l : Fresh net put rand ciph x f env a' salt c out raw)
      → Live c.conn rb raw
      → (w : Wrote c p out rb (write_conn net put rand ciph x f env p c)) × (w.result.next.salts
          ≡ l.0.salts)
  first-Wrote c p out raw rb (l, no_out, no_raw) live =
      let sink = Kept rb (net.budget c.conn) in
      let O = Kept-Sends rb (net.budget c.conn) in
      let (c1, made, has, sent, same_r, ss) =
        init_writer-Writing net put rand ciph x f env sink O a' laws' c salt [] l
          (subst (Live c.conn rb) no_raw live, refl) in
      let same =
        write_conn_first net put rand ciph x f env sink O a' laws' p c c1 (new_writer a')
          l.nothing_written made has in
      let begun = begun-Written c1 has in
      let w = write_conn-Wrote c1 p [] salt rb begun sent.0 in
      let salts_now : w.result.next.salts ≡ l.salts = elim w.same_salts [
        | inl unset ↦ cc (has, unset)
        | inr e ↦ e ∙ ss
      ] in
      (
        record {
          result = w.result;
          returned = same ∙ w.returned;
          no_error = w.no_error;
          counted = w.counted;
          raw = w.raw;
          live = w.live;
          written =
              subst (λ o. Written a' salt w.result.next (o ++ p) w.raw) (sym no_out) w.written;
          same_r = w.same_r ∙ same_r;
          same_salts = inl l.nothing_written;
          unspent = w.unspent ∙ sent.1;
        },
        salts_now,
      )

  pub either-Wrote :
      (c : StreamConn S Q F) (p out raw rb : List ℕ)
      → Writing net put rand ciph x f env a' salt c out raw
      → Live c.conn rb raw
      → Wrote c p out rb (write_conn net put rand ciph x f env p c)
  either-Wrote c p out raw rb (inl l) live = (first-Wrote c p out raw rb l live).0
  either-Wrote c p out raw rb (inr w) live = write_conn-Wrote c p out raw rb w live
