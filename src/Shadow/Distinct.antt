-- ===== src/Shadow/Distinct.antt =====
-- The nonces under which a writer of m_shadow/stream.go seals.
use miniproxygo.Common.{
  ℕ, suc, ◌+◌, ◌*◌, ◌^◌, ◌≤◌, ◌<◌, ◌≡◌, ◌≢◌, refl, sym, ap, ◌∙◌, subst, List, [], ◌∷◌, ◌++◌, length,
  All, arith, length-append, append_assoc,
}
use miniproxygo.Io.{Writer, Sends}
use miniproxygo.Shadow.Aead.{Aead, IsAead}
use miniproxygo.Shadow.Nonce.{increment, zeros, advance, advance_distinct}
use miniproxygo.Shadow.Frame.{header, concat, IsPayload, box, frames}
use miniproxygo.Shadow.Writer.{new_writer}
use miniproxygo.Shadow.Writer.Frames.{new_writer-IsReady}
use miniproxygo.Shadow.RoundTrip.{write_all, write_all-Stream}

-- No element stands twice in the list.
abbrev pub Distinct : List (List ℕ) → Type 0
Distinct [] = Unit
Distinct (n ∷ ns) = All (λ m. n ≢ m) ns × Distinct ns

-- What is sealed for these records: for each one the two bytes of its length, and itself.
abbrev pub plains : List (List ℕ) → List (List ℕ)
plains [] = []
plains (p ∷ ps) = header (length p) ∷ p ∷ plains ps

-- Each plaintext sealed under the nonce that stands at its place.
abbrev pub seal_each : Aead → List (List ℕ) → List (List ℕ) → List ℕ
seal_each a [] ps = []
seal_each a (n ∷ ns) [] = []
seal_each a (n ∷ ns) (p ∷ ps) = a.seal n p ++ seal_each a ns ps

-- As many nonces as there are plaintexts, from this one on.
abbrev nonces_from : List ℕ → List (List ℕ) → List (List ℕ)
nonces_from n [] = []
nonces_from n (p ∷ ps) = n ∷ nonces_from (increment n) ps

length-nonces_from : (n : List ℕ) (ps : List (List ℕ)) → length (nonces_from n ps) ≡ length ps
length-nonces_from n [] = refl
length-nonces_from n (p ∷ ps) = ap suc (length-nonces_from (increment n) ps)

frames-seal_each :
    (a : Aead) (n : List ℕ) (ps : List (List ℕ))
    → frames a n ps ≡ seal_each a (nonces_from n (plains ps)) (plains ps)
unfolding frames box
frames-seal_each a n [] = refl
frames-seal_each a n (p ∷ ps) =
    append_assoc (a.seal n (header (length p))) (a.seal (increment n) p) _
    ∙ ap (λ l. a.seal n (header (length p)) ++ (a.seal (increment n) p ++ l))
        (frames-seal_each a (increment (increment n)) ps)

-- The nonces behind an earlier one of a stream differ from it.
nonces_from-ne :
    (size i j : ℕ) (ps : List (List ℕ))
    → i < j
    → j + length ps ≤ 256 ^ size
    → All (λ m. advance i (zeros size) ≢ m) (nonces_from (advance j (zeros size)) ps)
unfolding advance
nonces_from-ne size i j [] less room = tt
nonces_from-ne size i j (p ∷ ps) less room = (
  advance_distinct size i j (omega arith) (omega arith) (omega arith),
  nonces_from-ne size i (suc j) ps (omega arith) (omega arith),
)

nonces_from-Distinct :
    (size i : ℕ) (ps : List (List ℕ))
    → i + length ps ≤ 256 ^ size
    → Distinct (nonces_from (advance i (zeros size)) ps)
unfolding advance
nonces_from-Distinct size i [] room = tt
nonces_from-Distinct size i (p ∷ ps) room = (
  nonces_from-ne size i (suc i) ps (omega arith) (omega arith),
  nonces_from-Distinct size (suc i) ps (omega arith),
)

-- Every record takes a byte at least, and two nonces.
length-plains :
    (ps : List (List ℕ)) → All IsPayload ps → length (plains ps) ≤ 2 * length (concat ps)
length-plains [] h = omega arith
length-plains (p ∷ ps) h = omega (arith, length-plains ps h.1, h.0.0, length-append p (concat ps))

-- Any calls of `Write` on a new writer, over a sink that fails no call, of so few bytes that two nonces
-- for each byte do not exceed 256 to the nonce's size: what they add to the sink is, for some cut of
-- the bytes into payloads of 1 to 16383 bytes, the length of each payload and the payload itself, each
-- sealed, in order, under a nonce that no other one is sealed under.
pub write_all-Distinct :
    (a : Aead) (laws : IsAead a) {T : Type 0} (put : Writer T) (Sent : T → List ℕ → Type 0)
    (O : Sends put Sent) (bs : List (List ℕ)) (t : T) (out : List ℕ)
    → Sent t out
    → 2 * length (concat bs) ≤ 256 ^ a.nonce_size
    → (records : List (List ℕ)) × (nonces : List (List ℕ)) × All IsPayload records
      × (concat records ≡ concat bs)
      × (length nonces ≡ length (plains records))
      × Distinct nonces
      × Sent (write_all a put bs (new_writer a) t).1 (out ++ seal_each a nonces (plains records))
write_all-Distinct a laws put Sent O bs t out o few =
    let (more, sent, stream) =
      write_all-Stream a laws put Sent O bs (new_writer a) t out o (new_writer-IsReady a) in
    let ps = stream.records in
    let first = zeros a.nonce_size in
    let sealed : seal_each a (nonces_from first (plains ps)) (plains ps) ≡ more =
      sym (frames-seal_each a first ps) ∙ unfold new_writer in stream.same_out in
    (
      ps,
      nonces_from first (plains ps),
      stream.payloads,
      stream.same_bytes,
      length-nonces_from first (plains ps),
      unfold advance in
          nonces_from-Distinct a.nonce_size 0 (plains ps)
            (omega (arith, length-plains ps stream.payloads, ap length stream.same_bytes)),
      subst (λ l. Sent (write_all a put bs (new_writer a) t).1 (out ++ l)) (sym sealed) sent,
    )
