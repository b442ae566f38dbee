-- ===== src/Shadow/Reader.antt =====
-- `reader` of m_shadow/stream.go: reads records, decrypts them in place, and keeps what a caller's
-- buffer has no room for.
pub mod Record
pub mod Stream
pub mod WriteTo
pub mod Authentic
pub mod Whole
use miniproxygo.Common.{
  ℕ, zero, suc, ◌+◌, ◌-◌, ◌*◌, ◌%◌, ◌^◌, min, ltb, if◌then◌else◌, Option, none, some, List, [],
  length, take, get_or, slice, splice, Bool, true, false,
}
use miniproxygo.Io.{Error, Read, Reader, Write, Writer, is_nil, read_full}
use miniproxygo.Shadow.Aead.{Aead}
use miniproxygo.Shadow.Nonce.{increment, zeros}
use miniproxygo.Shadow.Frame.{payload_size_mask}
use miniproxygo.Shadow.Writer.{forget_eof}

-- `leftover` is the slice `buf[left_lo:left_hi]`: it shares the buffer's memory, as in Go.
pub record Opener (S : Type 0) : Type 0 where
  pub nonce : List ℕ
  pub buf : List ℕ
  pub left_lo : ℕ
  pub left_hi : ℕ
  pub source : S

-- The result of `read`: the length of the payload, which stands at the start of the buffer.
pub record Opened (S : Type 0) : Type 0 where
  pub size : ℕ
  pub err : Option Error
  pub next : Opener S

-- `(int(buf[0])<<8 + int(buf[1])) & payloadSizeMask`; the mask is 2 ^ 14 - 1.
abbrev pub size_of : List ℕ → ℕ
size_of buf = (get_or buf 0 0 * 256 + get_or buf 1 0) % 2 ^ 14

module _ (a : Aead) {S : Type 0} (r : Reader S) where
  -- `newReader`
  unfoldable pub new_reader : S → Opener S
  new_reader s = record {
    nonce = zeros a.nonce_size;
    buf = zeros (payload_size_mask + a.overhead);
    left_lo = 0;
    left_hi = 0;
    source = s;
  }

  -- `r.Open(buf[:0], r.nonce, buf, nil)` with `len(buf) == n`, and the increment behind it.
  abbrev open_at : ℕ → Opener S → Option (List ℕ)
  open_at n o = a.open_box o.nonce (take n o.buf)

  abbrev moved : Opener S → Opener S
  moved o = record o { nonce = increment o.nonce }

  -- `io.ReadFull(r.Reader, r.buf[:n])` followed by the decryption in place.
  unfoldable pub read_box : ℕ → Opener S → Opened S
  read_box n o =
      let x = read_full r n o.source in
      let o' = record o { buf = splice 0 x.got o.buf; source = x.next } in
      if is_nil x.err
      then elim (open_at n o') [
        | none ↦ record { size = 0; err = some Error.authentication_failed; next = moved o' }
        | some plain ↦ record {
          size = 0;
          err = none;
          next = record (moved o') { buf = splice 0 plain o'.buf };
        }
      ]
      else record { size = 0; err = x.err; next = o' }

  -- `read`
  unfoldable pub read_record : Opener S → Opened S
  read_record o =
      let h = read_box (2 + a.overhead) o in
      let size = size_of h.next.buf in
      let p = read_box (size + a.overhead) h.next in
      if is_nil h.err then (if is_nil p.err then record p { size = size } else p) else h

  -- `copy(b, r.buf[:n])` behind a call of `read`, and what stays in `leftover`.
  abbrev pub hand_over : ℕ → Opened S → Read (Opener S)
  hand_over n x =
      let k = min n x.size in
      record {
        got = take k x.next.buf;
        err = x.err;
        next = if ltb k x.size then record (x.next) { left_lo = k; left_hi = x.size } else x.next;
      }

  -- `Read(b)` with `len(b) == n`
  unfoldable pub read_plain : ℕ → Opener S → Read (Opener S)
  read_plain n o =
      let m = min n (o.left_hi - o.left_lo) in
      if ltb o.left_lo o.left_hi
      then record {
        got = slice o.left_lo (o.left_lo + m) o.buf;
        err = none;
        next = record o { left_lo = o.left_lo + m };
      }
      else hand_over n (read_record o)

  -- A record costs the source a read at least and leaves at most 16383 bytes.
  unfoldable pub opener : Reader (Opener S)
  opener = record {
    read = read_plain;
    budget = λ o. r.budget o.source * 2 ^ 14 + (o.left_hi - o.left_lo);
  }
