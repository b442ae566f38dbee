-- ===== src/Shadow/Writer.antt =====
-- `writer` of m_shadow/stream.go: cuts what it is given into records and encrypts them in place.
pub mod Seal
pub mod Frames
use miniproxygo.Common.{
  ℕ, zero, suc, ◌+◌, ◌==◌, if◌then◌else◌, Option, none, some, List, [], length, take, replicate,
  slice, splice, Bool, true, false,
}
use miniproxygo.Io.{Error, Read, Reader, Write, Writer, is_nil, is_eof}
use miniproxygo.Io.Buffer.{buffer}
use miniproxygo.Shadow.Aead.{Aead}
use miniproxygo.Shadow.Nonce.{increment, zeros}
use miniproxygo.Shadow.Frame.{header, payload_size_mask}

-- The fields `nonce` and `buf` of `writer`.
pub record Sealer : Type 0 where
  pub nonce : List ℕ
  pub buf : List ℕ

-- The result of `ReadFrom`, with the writer, the source and the embedded writer behind it.
pub record Pumped (S T : Type 0) : Type 0 where
  pub total : ℕ
  pub err : Option Error
  pub cipher : Sealer
  pub source : S
  pub sink : T

-- The end of the input is no error of `ReadFrom` or `WriteTo`.
abbrev pub forget_eof : Option Error → Option Error
forget_eof none = none
forget_eof (some e) = if is_eof e then none else some e

module _ (a : Aead) where
  -- `newWriter`
  unfoldable pub new_writer : Sealer
  new_writer = record {
    nonce = zeros a.nonce_size;
    buf = zeros (2 + a.overhead + payload_size_mask + a.overhead);
  }

  -- The buffer once `r.Read(payloadBuf)` has put `got` there, and `w.buf[:2]` is the length.
  abbrev with_header : List ℕ → List ℕ → List ℕ
  with_header got buf = splice 0 (header (length got)) (splice (2 + a.overhead) got buf)

  -- `w.Seal(buf[:0], w.nonce, buf[:2], nil)`
  abbrev with_box : List ℕ → List ℕ → List ℕ
  with_box nonce buf = splice 0 (a.seal nonce (take 2 buf)) buf

  -- `w.Seal(payloadBuf[:0], w.nonce, payloadBuf, nil)` where `len(payloadBuf) == nr`
  abbrev with_payload : ℕ → List ℕ → List ℕ → List ℕ
  with_payload nr nonce buf =
      splice (2 + a.overhead) (a.seal nonce (slice (2 + a.overhead) (2 + a.overhead + nr) buf)) buf

  -- One round of the loop up to the write: both boxes are made in `w.buf`.
  unfoldable pub seal_record : List ℕ → Sealer → Sealer
  seal_record got w =
      let nonce' = increment w.nonce in
      record {
        nonce = increment nonce';
        buf = with_payload (length got) nonce' (with_box w.nonce (with_header got w.buf));
      }

  -- `buf[:2+w.Overhead()+nr+w.Overhead()]`
  abbrev pub frame_of : ℕ → Sealer → List ℕ
  frame_of nr w = take (2 + a.overhead + nr + a.overhead) w.buf

  module _ {S T : Type 0} (r : Reader S) (put : Writer T) where
    -- The loop of `ReadFrom`. A round that reads nothing leaves only the buffer's scratch bytes.
    unfoldable pub pump : ℕ → ℕ → Sealer → S → T → Pumped S T
    pump zero n w s t = record {
      total = n;
      err = some Error.diverged;
      cipher = w;
      source = s;
      sink = t;
    }
    pump (suc fuel) n w s t =
        let x = r.read payload_size_mask s in
        let nr = length x.got in
        let w' = seal_record x.got w in
        let y = put (frame_of nr w') t in
        let after_write = pump fuel (n + nr) w' x.next y.next in
        let after_nothing = pump fuel n w x.next t in
        if nr == 0
        then if is_nil x.err
          then after_nothing
          else record { total = n; err = forget_eof x.err; cipher = w; source = x.next; sink = t }
        else if is_nil y.err
        then if is_nil x.err then after_write else record {
          total = n + nr;
          err = forget_eof x.err;
          cipher = w';
          source = x.next;
          sink = y.next;
        }
        else record { total = n + nr; err = y.err; cipher = w'; source = x.next; sink = y.next }

    unfoldable pub read_from : Sealer → S → T → Pumped S T
    unfolding pump
    read_from w s t = pump (suc (r.budget s)) 0 w s t

  -- `Write(b)` is `ReadFrom(bytes.NewBuffer(b))`.
  unfoldable pub write : {T : Type 0} → Writer T → List ℕ → Sealer → T → Pumped (List ℕ) T
  unfolding read_from
  write put b w t = read_from buffer put w b t
