-- ===== src/Io/Network.antt =====
-- A network connection (Go's `net.Conn`): what the peer sends, in the pieces in which the network
-- delivers it, and what the program writes.
use miniproxygo.Common.{
  ℕ, suc, ◌+◌, ◌≤◌, ◌<◌, ◌≡◌, refl, sym, ap, ◌∙◌, ◌⊎◌, inl, inr, ◌++◌, Bool, Option, none, some,
  List, [], ◌∷◌, length, take, drop, if◌then◌else◌, ltb, arith, take-append-drop, drop-append,
  drop-append_le, append_assoc, subst, Bool-cases, ltb→lt, ltb→ge, length-take, length-drop, min,
}
use miniproxygo.Io.Feeds.{Feeds}
use miniproxygo.Io.{Error, Read, Reader, Write, Writer, Delivers, Sends}

-- `chunk bs`: bytes that one `Read` can return; `fault n`: a `Read` that fails with error `n`.
pub data Event : Type 0 where
  chunk : List ℕ → Event
  fault : ℕ → Event

-- `refusals` says of each `Write` to come whether it takes everything or only a number of bytes and
-- then fails; when it is used up, every `Write` succeeds. `closed` is set by `Close`.
pub record Conn : Type 0 where
  pub incoming : List Event
  pub outgoing : List ℕ
  pub refusals : List (Option (ℕ × ℕ))
  pub closed : Bool

-- `Read` takes from the first piece only, and leaves what does not fit.
take_event : ℕ → List Event → Read (List Event)
take_event n [] = record { got = []; err = some Error.eof; next = [] }
take_event n (chunk bs ∷ rest) =
    if ltb n (length bs)
    then record { got = take n bs; err = none; next = chunk (drop n bs) ∷ rest }
    else record { got = bs; err = none; next = rest }
take_event n (fault e ∷ rest) = record { got = []; err = some (Error.network e); next = rest }

weigh : List Event → ℕ
weigh [] = 0
weigh (chunk bs ∷ rest) = suc (length bs + weigh rest)
weigh (fault e ∷ rest) = suc (weigh rest)

unfoldable pub network : Reader Conn
unfolding take_event weigh
network = record {
  read = λ n c.
      let x = take_event n c.incoming in
      record { got = x.got; err = x.err; next = record c { incoming = x.next } };
  budget = λ c. weigh c.incoming;
}

send_to : List (Option (ℕ × ℕ)) → List ℕ → Conn → Write Conn
send_to [] p c = record {
  count = length p;
  err = none;
  next = record c { outgoing = c.outgoing ++ p };
}
send_to (none ∷ rs) p c = record {
  count = length p;
  err = none;
  next = record c { outgoing = c.outgoing ++ p; refusals = rs };
}
send_to (some (k, e) ∷ rs) p c = record {
  count = min k (length p);
  err = some (Error.network e);
  next = record c { outgoing = c.outgoing ++ take k p; refusals = rs };
}

unfoldable pub send : Writer Conn
unfolding send_to
send p c = send_to c.refusals p c

abbrev pub IsClean : List Event → Type 0
IsClean [] = Unit
IsClean (chunk bs ∷ rest) = IsClean rest
IsClean (fault e ∷ rest) = ⊥

abbrev pub bytes : List Event → List ℕ
bytes [] = []
bytes (chunk bs ∷ rest) = bs ++ bytes rest
bytes (fault e ∷ rest) = []

-- The connection delivers these bytes, in any pieces, and then the end of the input.
abbrev pub Incoming : Conn → List ℕ → Type 0
Incoming c bs = IsClean c.incoming × (bytes c.incoming ≡ bs)

-- One `take_event`, stated for the bytes of the events themselves.
record Taken (n : ℕ) (es : List Event) (x : Read (List Event)) : Type 0 where
  fits : length x.got ≤ n
  in_order : x.got ++ drop (length x.got) (bytes es) ≡ bytes es
  clean : IsClean x.next
  left : bytes x.next ≡ drop (length x.got) (bytes es)
  verdict : (x.err ≡ none) × (weigh x.next < weigh es) ⊎ (x.err ≡ some Error.eof) × (bytes es ≡ [])

cut_chunk :
    (n : ℕ) (cs rest : List ℕ)
    → n < length cs
    → (take n cs ++ drop (length (take n cs)) (cs ++ rest) ≡ cs ++ rest)
      × (drop n cs ++ rest ≡ drop (length (take n cs)) (cs ++ rest))
cut_chunk n cs rest h =
    let e : length (take n cs) ≡ n = omega (arith, length-take n cs) in
    let seam : drop (length (take n cs)) (cs ++ rest) ≡ drop n cs ++ rest =
      ap (λ m. drop m (cs ++ rest)) e ∙ drop-append_le n cs rest (omega arith) in
    (
      ap (λ l. take n cs ++ l) seam
          ∙ sym (append_assoc (take n cs) (drop n cs) rest)
          ∙ ap (λ l. l ++ rest) (take-append-drop n cs),
      sym seam,
    )

take_event-Taken : (n : ℕ) (es : List Event) → 0 < n → IsClean es → Taken n es (take_event n es)
unfolding take_event weigh
take_event-Taken n [] h c = record {
  fits = omega arith;
  in_order = refl;
  clean = tt;
  left = refl;
  verdict = inr (refl, refl);
}
take_event-Taken n (fault e ∷ rest) h c = absurd c
take_event-Taken n (chunk bs ∷ rest) h c = elim (Bool-cases (ltb n (length bs))) [
  | inl part ↦ rw part (record {
    fits = omega (arith, length-take n bs);
    in_order = (cut_chunk n bs (bytes rest) (ltb→lt _ _ part)).0;
    clean = c;
    left = (cut_chunk n bs (bytes rest) (ltb→lt _ _ part)).1;
    verdict = inl (refl, omega (arith, length-drop n bs, ltb→lt _ _ part));
  })
  | inr whole ↦ rw whole (record {
    fits = ltb→ge _ _ whole;
    in_order = ap (λ l. bs ++ l) (drop-append (length bs) bs (bytes rest) refl);
    clean = c;
    left = sym (drop-append (length bs) bs (bytes rest) refl);
    verdict = inl (refl, omega arith);
  })
]

-- A connection without faults keeps the contract of a reader, whatever the pieces are.
pub network-Delivers : Delivers network Incoming
unfolding network
network-Delivers n c bs h (clean, e) =
    let t = take_event-Taken n c.incoming h clean in
    record {
      fits = t.fits;
      in_order =
          subst
            (λ l.
              (take_event n c.incoming).got ++ drop (length (take_event n c.incoming).got) l ≡ l)
            e t.in_order;
      holds = (t.clean, t.left ∙ ap (drop (length (take_event n c.incoming).got)) e);
      verdict = elim t.verdict [ inl v ↦ inl v | inr (ended, empty) ↦ inr (ended, sym e ∙ empty) ];
    }

-- The connection refuses no `Write`, and `out` is all that it was given.
abbrev pub Outgoing : Conn → List ℕ → Type 0
Outgoing c out = (c.refusals ≡ []) × (c.outgoing ≡ out)

send-Outgoing :
    (rs : List (Option (ℕ × ℕ))) (c : Conn) (out p : List ℕ)
    → rs ≡ []
    → c.refusals ≡ []
    → c.outgoing ≡ out
    → ((send_to rs p c).err ≡ none)
      × ((send_to rs p c).count ≡ length p)
      × Outgoing (send_to rs p c).next (out ++ p)
unfolding send_to
send-Outgoing [] c out p e r o = (refl, refl, (r, ap (λ l. l ++ p) o))
send-Outgoing (x ∷ rs) c out p e r o = cc

pub send-Sends : Sends send Outgoing
unfolding send
send-Sends c out p (r, o) = send-Outgoing c.refusals c out p r r o

send_to_incoming :
    (rs : List (Option (ℕ × ℕ))) (c : Conn) (p : List ℕ)
    → rs ≡ []
    → (send_to rs p c).next.incoming ≡ c.incoming
unfolding send_to
send_to_incoming [] c p e = refl
send_to_incoming (x ∷ rs) c p e = cc

-- A connection in both directions: `Live s bs out` says that `bs` can still be read and that `out`
-- has been written; no operation fails.
pub record Duplex {S : Type 0} (r : Reader S) (put : Writer S) (Live : S → List ℕ → List ℕ → Type 0)
    : Type 0 where
  pub delivers : (out : List ℕ) → Delivers r (λ s bs. Live s bs out)
  pub sends :
      (s : S) (bs out p : List ℕ)
      → Live s bs out
      → ((put p s).err ≡ none) × Live (put p s).next bs (out ++ p)
  pub counts : (s : S) (bs out p : List ℕ) → Live s bs out → (put p s).count ≡ length p
  pub unspent : (s : S) (bs out p : List ℕ) → Live s bs out → r.budget (put p s).next ≡ r.budget s

abbrev pub Open : Conn → List ℕ → List ℕ → Type 0
Open c bs out = Incoming c bs × Outgoing c out

pub network-Duplex : Duplex network send Open
unfolding network send
network-Duplex = record {
  delivers = λ out n c bs h live.
      let st = network-Delivers n c bs h live.0 in
      record {
        fits = st.fits;
        in_order = st.in_order;
        holds = (st.holds, live.1);
        verdict = st.verdict;
      };
  sends = λ c bs out p live.
      let kept = send_to_incoming c.refusals c p live.1.0 in
      let sent = send-Sends c out p live.1 in
      (sent.0, ((subst (λ es. IsClean es) (sym kept) live.0.0, ap bytes kept ∙ live.0.1), sent.2));
  counts = λ c bs out p live. (send-Sends c out p live.1).1;
  unspent = λ c bs out p live. ap weigh (send_to_incoming c.refusals c p live.1.0);
}

-- What the network has of the input, the faults left out.
abbrev pub all_bytes : List Event → List ℕ
all_bytes [] = []
all_bytes (chunk bs ∷ rest) = bs ++ all_bytes rest
all_bytes (fault e ∷ rest) = all_bytes rest

abbrev pub Pending : Conn → List ℕ → Type 0
Pending c bs = all_bytes c.incoming ≡ bs

take_event-fed :
    (n : ℕ) (es : List Event)
    → (length (take_event n es).got ≤ n)
      × ((take_event n es).got ++ all_bytes (take_event n es).next ≡ all_bytes es)
unfolding take_event
take_event-fed n [] = (omega arith, refl)
take_event-fed n (fault e ∷ rest) = (omega arith, refl)
take_event-fed n (chunk bs ∷ rest) = elim (Bool-cases (ltb n (length bs))) [
  | inl part ↦ rw part (
    omega (arith, length-take n bs),
    sym (append_assoc (take n bs) (drop n bs) (all_bytes rest))
        ∙ ap (λ l. l ++ all_bytes rest) (take-append-drop n bs),
  )
  | inr whole ↦ rw whole (ltb→ge _ _ whole, refl)
]

-- A connection delivers its input in order, and never more than there is room for, faults or not.
pub network-Feeds : Feeds network Pending
unfolding network
network-Feeds n c bs h =
    let (fits, order) = take_event-fed n c.incoming in
    record {
      left = all_bytes (take_event n c.incoming).next;
      fits = fits;
      in_order = order ∙ h;
      holds = refl;
    }
