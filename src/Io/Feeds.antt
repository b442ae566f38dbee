-- ===== src/Io/Feeds.antt =====
-- `io.ReadFull` over a reader whose input is known, but which may fail at any call.
use miniproxygo.Common.{
  ℕ, zero, suc, ◌+◌, ◌-◌, ◌≤◌, ◌≡◌, refl, ap, ◌∙◌, ◌⊎◌, Bool, true, false, ltb, ◌&&◌, inl, inr,
  Option, none, some, List, [], ◌++◌, length, length-append, append_assoc, if◌then◌else◌, leb,
  Bool-cases, Option-cases, arith,
}
use miniproxygo.Io.{Error, Read, Reader, read_loop, read_full, full_err, is_eof}

-- A read of at most `n` bytes: what it returns is the next bytes of the input, whether or not it reports
-- an error.
pub record Fed {S : Type 0} (Holds : S → List ℕ → Type 0) (n : ℕ) (bs : List ℕ) (x : Read S)
    : Type 0 where
  pub left : List ℕ
  pub fits : length x.got ≤ n
  pub in_order : x.got ++ left ≡ bs
  pub holds : Holds x.next left

-- `Holds s bs` says that from state `s` on the reader delivers `bs`, or fails on the way.
abbrev pub Feeds : {S : Type 0} → Reader S → (S → List ℕ → Type 0) → Type 0
Feeds {S} r Holds = (n : ℕ) (s : S) (bs : List ℕ) → Holds s bs → Fed Holds n bs (r.read n s)

full_err-none : (want n : ℕ) (o : Option Error) → full_err want n o ≡ none → (o ≡ none) ⊎ (want ≤ n)
full_err-none want n none e = inl refl
full_err-none want n (some z) e = elim (Bool-cases (leb want n)) [
  | inl enough ↦ inr (ground arith)
  | inr short ↦ let k = rw short at e in failed (ltb 0 n && is_eof z) z k
]
  where
    failed :
        {P : Type 0} (b : Bool) (z : Error)
        → (if b then some Error.unexpected_eof else some z) ≡ none
        → P
    failed true z k = cc
    failed false z k = cc

-- A loop that wants `k` more bytes of `bs`, with `acc` read so far.
record Looped {S : Type 0} (Holds : S → List ℕ → Type 0) (k : ℕ) (acc bs : List ℕ) (x : Read S)
    : Type 0 where
  pub left : List ℕ
  pub at_most : length x.got ≤ length acc + k
  pub exact : x.err ≡ none → length x.got ≡ length acc + k
  pub in_order : x.got ++ left ≡ acc ++ bs
  pub holds : Holds x.next left

module _ {S : Type 0} (r : Reader S) (Holds : S → List ℕ → Type 0) (feeds : Feeds r Holds) where
  read_loop-Looped :
      (fuel k : ℕ) (acc : List ℕ) (s : S) (bs : List ℕ)
      → Holds s bs
      → Looped Holds k acc bs (read_loop r fuel k acc s)
  unfolding read_loop
  read_loop-Looped fuel zero acc s bs h = record {
    left = bs;
    at_most = omega arith;
    exact = λ e. omega arith;
    in_order = refl;
    holds = h;
  }
  read_loop-Looped zero (suc k) acc s bs h = record {
    left = bs;
    at_most = omega arith;
    exact = λ e. cc;
    in_order = refl;
    holds = h;
  }
  read_loop-Looped (suc fuel) (suc k) acc s bs h =
      let x = r.read (suc k) s in
      let joined = length-append acc x.got in
      let one = feeds (suc k) s bs h in
      let seam : (acc ++ x.got) ++ one.left ≡ acc ++ bs =
        append_assoc acc x.got one.left ∙ ap (λ l. acc ++ l) one.in_order in
      let rest =
        read_loop-Looped fuel (suc k - length x.got) (acc ++ x.got) x.next one.left one.holds in
      elim (Option-cases x.err) [
        | inl ok ↦ rw ok (record {
          left = rest.left;
          at_most = omega (arith, rest.at_most, joined, one.fits);
          exact = λ e. omega (arith, rest.exact e, joined, one.fits);
          in_order = rest.in_order ∙ seam;
          holds = rest.holds;
        })
        | inr (z, bad) ↦ rw bad (record {
          left = one.left;
          at_most = omega (arith, joined, one.fits);
          exact = λ e. cc (e);
          in_order = seam;
          holds = one.holds;
        })
      ]

  -- It returns the next bytes of the input, and fills the buffer exactly where it reports no error.
  pub read_full-Fed :
      (want : ℕ) (s : S) (bs : List ℕ)
      → Holds s bs
      → Fed Holds want bs (read_full r want s)
        × ((read_full r want s).err ≡ none → length (read_full r want s).got ≡ want)
  unfolding read_full
  read_full-Fed want s bs h =
      let x = read_loop r (suc (r.budget s)) want [] s in
      let l = read_loop-Looped (suc (r.budget s)) want [] s bs h in
      (
        record {
          left = l.left;
          fits = omega (arith, l.at_most);
          in_order = l.in_order;
          holds = l.holds;
        },
        λ e. elim (full_err-none want (length x.got) x.err e) [
          | inl ok ↦ omega (arith, l.exact ok)
          | inr enough ↦ omega (arith, enough, l.at_most)
        ],
      )
