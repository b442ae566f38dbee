-- ===== src/Shadow/Reader/Authentic.antt =====
-- The reader of m_shadow/stream.go hands over nothing that has not been authenticated, whatever the
-- network delivers.
use miniproxygo.Common.{
  length-replicate, get_or, get_or-take, ap₂, ◌*◌, ℕ, zero, suc, ◌+◌, ◌%◌, ◌^◌, ◌≤◌, ◌≡◌, refl, sym,
  ap, ◌∙◌, subst, inl, inr, Bool-cases, Option-cases, none, some, List, [], ◌∷◌, ◌++◌, length, take,
  splice, ◌==◌, ==_iff, length-splice, take-splice, append-nil, append_assoc, arith,
}
use miniproxygo.Io.{Error, Reader, Writer, Sends, read_full}
use miniproxygo.Io.Feeds.{Feeds, read_full-Fed}
use miniproxygo.Shadow.Aead.{Aead}
use miniproxygo.Shadow.Nonce.{increment, zeros}
use miniproxygo.Shadow.Frame.{payload_size_mask}
use miniproxygo.Shadow.Reader.{Opener, Opened, size_of, open_at, read_box, read_record, new_reader}
use miniproxygo.Shadow.Reader.WriteTo.{flush_leftover, drain, write_to}

-- What `Open` returns is `Overhead()` bytes shorter than the box.
abbrev pub Shrinks : Aead → Type 0
Shrinks a =
    (nonce box plain : List ℕ)
    → a.open_box nonce box ≡ some plain
    → length plain + a.overhead ≡ length box

-- A box, the next `n` bytes of the input, that has been opened in place.
record OpenedBox {S : Type 0} (a : Aead) (Holds : S → List ℕ → Type 0) (n : ℕ) (bs : List ℕ)
    (o : Opener S) (y : Opened S) : Type 0 where
  pub box : List ℕ
  pub plain : List ℕ
  pub opens : a.open_box o.nonce box ≡ some plain
  pub size : length box ≡ n
  pub front : take (length plain) y.next.buf ≡ plain
  pub moved : y.next.nonce ≡ increment o.nonce
  pub same_size : length y.next.buf ≡ length o.buf
  pub left : List ℕ
  pub in_order : box ++ left ≡ bs
  pub holds : Holds y.next.source left

module _ (a : Aead) (shrinks : Shrinks a) {S : Type 0} (r : Reader S) (Holds : S → List ℕ → Type 0)
    (feeds : Feeds r Holds) where
  read_box-OpenedBox :
      (n : ℕ) (o : Opener S) (bs : List ℕ)
      → n ≤ length o.buf
      → Holds o.source bs
      → (read_box a r n o).err ≡ none
      → OpenedBox a Holds n bs o (read_box a r n o)
  unfolding read_box
  read_box-OpenedBox n o bs room h e =
      let x = read_full r n o.source in
      let o' = record o { buf = splice 0 x.got o.buf; source = x.next } in
      elim (Option-cases x.err) [
        | inr (z, bad) ↦ let k = rw bad at e in cc (k)
        | inl ok ↦
            let (fed, filled) = read_full-Fed r Holds feeds n o.source bs h in
            let size = filled ok in
            elim (Option-cases (open_at a r n o')) [
              | inl refused ↦ let k = rw (ok, refused) at e in cc (k)
              | inr (plain, opened) ↦
                  let whole : take n o'.buf ≡ x.got =
                    take-splice n 0 x.got o.buf (omega arith) (omega (arith, size)) in
                  let opens : a.open_box o.nonce x.got ≡ some plain =
                    ap (a.open_box o.nonce) (sym whole) ∙ opened in
                  let short = shrinks o.nonce x.got plain opens in
                  let grown : length o'.buf ≡ length o.buf =
                    length-splice 0 x.got o.buf (omega (arith, size)) in
                  rw (ok, opened)
                    (record {
                      box = x.got;
                      plain = plain;
                      opens = opens;
                      size = size;
                      front = take-splice (length plain) 0 plain o'.buf (omega arith) (omega arith);
                      moved = refl;
                      same_size =
                          length-splice 0 plain o'.buf (omega (arith, short, size, grown)) ∙ grown;
                      left = fed.left;
                      in_order = fed.in_order;
                      holds = fed.holds;
                    })
            ]
      ]

-- A record as it stands on the wire, and what it carries.
pub record Carried : Type 0 where
  pub header_box : List ℕ
  pub body_box : List ℕ
  pub payload : List ℕ

abbrev pub wire_of : List Carried → List ℕ
wire_of [] = []
wire_of (q ∷ qs) = (q.header_box ++ q.body_box) ++ wire_of qs

abbrev pub payloads_of : List Carried → List ℕ
payloads_of [] = []
payloads_of (q ∷ qs) = q.payload ++ payloads_of qs

-- A record sealed under this nonce and the next one: both boxes open, the second one to the payload, and
-- the first announces its length.
pub record Authentic (a : Aead) (nonce : List ℕ) (q : Carried) : Type 0 where
  pub header : List ℕ
  pub header_opens : a.open_box nonce q.header_box ≡ some header
  pub body_opens : a.open_box (increment nonce) q.body_box ≡ some q.payload
  pub announced : size_of header ≡ length q.payload

-- Records in a row, each under the two nonces behind those of the record before it.
abbrev pub AllAuthentic : Aead → List ℕ → List Carried → Type 0
AllAuthentic a nonce [] = Unit
AllAuthentic a nonce (q ∷ qs) =
    Authentic a nonce q × AllAuthentic a (increment (increment nonce)) qs

size_of-take : (buf header : List ℕ) → take 2 buf ≡ header → size_of buf ≡ size_of header
size_of-take buf header e =
    ap₂ (λ x y. (x * 256 + y) % 2 ^ 14)
      (sym (get_or-take 2 0 0 buf (omega arith)) ∙ ap (λ l. get_or l 0 0) e)
      (sym (get_or-take 2 1 0 buf (omega arith)) ∙ ap (λ l. get_or l 1 0) e)

-- A record that `read` has accepted.
record Accepted {S : Type 0} (a : Aead) (Holds : S → List ℕ → Type 0) (bs : List ℕ) (o : Opener S)
    (x : Opened S) : Type 0 where
  pub carried : Carried
  pub authentic : Authentic a o.nonce carried
  pub handed : take x.size x.next.buf ≡ carried.payload
  pub left : List ℕ
  pub in_order : (carried.header_box ++ carried.body_box) ++ left ≡ bs
  pub holds : Holds x.next.source left
  pub moved : x.next.nonce ≡ increment (increment o.nonce)
  pub same_size : length x.next.buf ≡ length o.buf

module _ (a : Aead) {S : Type 0} (r : Reader S) where
  read_box-size : (n : ℕ) (o : Opener S) → (read_box a r n o).size ≡ 0
  unfolding read_box
  read_box-size n o =
      let x = read_full r n o.source in
      let o' = record o { buf = splice 0 x.got o.buf; source = x.next } in
      elim (Option-cases x.err) [
        | inr (z, bad) ↦ rw bad refl
        | inl ok ↦ elim (Option-cases (open_at a r n o')) [
          | inl refused ↦ rw (ok, refused) refl
          | inr (plain, opened) ↦ rw (ok, opened) refl
        ]
      ]

  read_record_failed :
      (o : Opener S) (e : Error) → (read_record a r o).err ≡ some e → (read_record a r o).size ≡ 0
  unfolding read_record
  read_record_failed o e failed =
      let h = read_box a r (2 + a.overhead) o in
      let p = read_box a r (size_of h.next.buf + a.overhead) h.next in
      elim (Option-cases h.err) [
        | inr (z, bad) ↦ rw bad (read_box-size (2 + a.overhead) o)
        | inl fine ↦ elim (Option-cases p.err) [
          | inr (z, bad) ↦ rw (fine, bad) (read_box-size (size_of h.next.buf + a.overhead) h.next)
          | inl good ↦ let k = rw (fine, good) at failed in cc (k)
        ]
      ]

module _ (a : Aead) (shrinks : Shrinks a) {S : Type 0} (r : Reader S) (Holds : S → List ℕ → Type 0)
    (feeds : Feeds r Holds) where
  read_record-Accepted :
      (o : Opener S) (bs : List ℕ)
      → length o.buf ≡ payload_size_mask + a.overhead
      → Holds o.source bs
      → (read_record a r o).err ≡ none
      → Accepted a Holds bs o (read_record a r o)
  unfolding read_record
  read_record-Accepted o bs room held e =
      let h = read_box a r (2 + a.overhead) o in
      let p = read_box a r (size_of h.next.buf + a.overhead) h.next in
      elim (Option-cases h.err) [
        | inr (z, bad) ↦ let k = rw bad at e in cc (k)
        | inl fine ↦ elim (Option-cases p.err) [
          | inr (z, bad) ↦ let k = rw (fine, bad) at e in cc (k)
          | inl good ↦
              let first =
                read_box-OpenedBox a shrinks r Holds feeds (2 + a.overhead) o bs (omega arith) held
                  fine in
              let two : length first.plain ≡ 2 =
                omega (arith, shrinks o.nonce first.box first.plain first.opens, first.size) in
              let size =
                size_of-take h.next.buf first.plain
                  (ap (λ m. take m h.next.buf) (sym two) ∙ first.front) in
              let second =
                read_box-OpenedBox a shrinks r Holds feeds (size_of h.next.buf + a.overhead) h.next
                  first.left (omega (arith, first.same_size)) first.holds good in
              let same : length second.plain ≡ size_of h.next.buf =
                omega
                  (arith, shrinks h.next.nonce second.box second.plain second.opens, second.size) in
              rw (fine, good)
                (record {
                  carried = record {
                    header_box = first.box;
                    body_box = second.box;
                    payload = second.plain;
                  };
                  left = second.left;
                  in_order =
                      append_assoc first.box second.box second.left
                      ∙ ap (λ l. first.box ++ l) second.in_order
                      ∙ first.in_order;
                  holds = second.holds;
                  authentic = record {
                    header = first.plain;
                    header_opens = first.opens;
                    body_opens = ap (λ m. a.open_box m second.box) (sym first.moved) ∙ second.opens;
                    announced = sym size ∙ sym same;
                  };
                  handed = ap (λ m. take m p.next.buf) (sym same) ∙ second.front;
                  moved = second.moved ∙ ap increment first.moved;
                  same_size = second.same_size ∙ first.same_size;
                })
        ]
      ]

  module _ {T : Type 0} (put : Writer T) (Sent : T → List ℕ → Type 0) (O : Sends put Sent) where
    -- What a loop has passed on: the payloads of authentic records, which stand at the front of the
    -- input, in order.
    abbrev Passed : List ℕ → List ℕ → List ℕ → T → Type 0
    Passed nonce bs out u =
        (qs : List Carried) × (rest : List ℕ) × AllAuthentic a nonce qs
        × (wire_of qs ++ rest ≡ bs)
        × Sent u (out ++ payloads_of qs)

    nothing_more : (nonce bs out : List ℕ) (t : T) → Sent t out → Passed nonce bs out t
    nothing_more nonce bs out t s = ([], bs, tt, refl, subst (Sent t) (sym (append-nil out)) s)

    one_more :
        (nonce bs left out : List ℕ) (q : Carried) (u : T)
        → Authentic a nonce q
        → (q.header_box ++ q.body_box) ++ left ≡ bs
        → Passed (increment (increment nonce)) left (out ++ q.payload) u
        → Passed nonce bs out u
    one_more nonce bs left out q u first front (qs, rest, more, order, sent) = (
      q ∷ qs,
      rest,
      (first, more),
      append_assoc (q.header_box ++ q.body_box) (wire_of qs) rest
          ∙ ap (λ l. (q.header_box ++ q.body_box) ++ l) order
          ∙ front,
      subst (Sent u) (append_assoc out q.payload (payloads_of qs)) sent,
    )

    drain-Passed :
        (fuel n : ℕ) (o : Opener S) (t : T) (bs out : List ℕ)
        → length o.buf ≡ payload_size_mask + a.overhead
        → Holds o.source bs
        → Sent t out
        → Passed o.nonce bs out (drain a r put fuel n o t).sink
    unfolding drain
    drain-Passed zero n o t bs out room h s = nothing_more o.nonce bs out t s
    drain-Passed (suc fuel) n o t bs out room h s =
        let x = read_record a r o in
        let w = O t out (take x.size x.next.buf) s in
        let y = put (take x.size x.next.buf) t in
        elim (Option-cases x.err) [
          | inr (e, failed) ↦
              rw (read_record_failed a r o e failed, failed) (nothing_more o.nonce bs out t s)
          | inl fine ↦
              let acc = read_record-Accepted o bs room h fine in
              let p = acc.carried.payload in
              let with_payload = λ (k : ℕ) (u : T) (held : Sent u (out ++ p)).
                one_more o.nonce bs acc.left out acc.carried (drain a r put fuel k x.next u).sink
                  acc.authentic acc.in_order
                  (subst (λ m. Passed m acc.left (out ++ p) (drain a r put fuel k x.next u).sink)
                    acc.moved
                    (drain-Passed fuel k x.next u acc.left (out ++ p) (acc.same_size ∙ room)
                      acc.holds held)) in
              elim (Bool-cases (x.size == 0)) [
                | inl empty ↦
                    let blank : p ≡ [] =
                      sym acc.handed ∙ ap (λ k. take k x.next.buf) ((==_iff x.size 0).0 empty) in
                    rw (empty, fine)
                      (with_payload n t
                        (subst (Sent t) (sym (ap (λ l. out ++ l) blank ∙ append-nil out)) s))
                | inr some_bytes ↦
                    rw (some_bytes, w.0, fine)
                      (with_payload (n + y.count) y.next
                        (subst (λ l. Sent y.next (out ++ l)) acc.handed w.2))
              ]
        ]

    -- `WriteTo` of a new reader, over a source that has the bytes `bs` of input, hands them out in
    -- order in any pieces, and may fail at any call, with a sink that fails no call, and an AEAD
    -- whose `Open` returns `Overhead()` bytes less than the box: the input begins with records
    -- whose two boxes open under the nonces that are due, each of the length that its header
    -- announces, and what has been added to the sink is exactly the payloads of these records, in
    -- order.
    pub write_to-AllAuthentic :
        (s : S) (t : T) (bs out : List ℕ)
        → Holds s bs
        → Sent t out
        → (qs : List Carried) × (rest : List ℕ) × AllAuthentic a (zeros a.nonce_size) qs
          × (wire_of qs ++ rest ≡ bs)
          × Sent (write_to a r put (new_reader a r s) t).sink (out ++ payloads_of qs)
    unfolding write_to flush_leftover new_reader
    write_to-AllAuthentic s t bs out h sent =
        drain-Passed (suc (r.budget s)) 0 (new_reader a r s) t bs out
          (length-replicate (payload_size_mask + a.overhead) 0) h sent
