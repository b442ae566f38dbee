-- ===== src/Io/Full.antt =====
-- `io.ReadFull` over a reader that keeps its contract: what it returns does not depend on the sizes
-- in which the input arrives.
use miniproxygo.Common.{
  ℕ, zero, suc, ◌+◌, ◌-◌, ◌≤◌, ◌<◌, ◌≡◌, refl, sym, ap, ◌∙◌, subst, inl, inr, ◌++◌, Option, none,
  some, List, [], ◌∷◌, length, take, drop, if◌then◌else◌, leb, arith, take-append, take-add,
  drop-drop, append_assoc, append-nil, length-append, length-drop, length-take, min, ◌==◌, drop_all,
}
use miniproxygo.Io.{Error, Read, Reader, Step, Delivers, read_loop, read_full}

-- Two reads in a row take what one longer read takes.
pub resume :
    (k : ℕ) (g bs : List ℕ)
    → length g ≤ k
    → g ++ drop (length g) bs ≡ bs
    → g ++ take (k - length g) (drop (length g) bs) ≡ take k bs
resume k g bs fits e =
    let split : length g + (k - length g) ≡ k = omega arith in
    let front : take (length g) bs ≡ g =
      ap (take (length g)) (sym e) ∙ take-append (length g) g _ refl in
    sym (
      ap (λ m. take m bs) (sym split)
      ∙ take-add (length g) (k - length g) bs
      ∙ ap (λ f. f ++ take (k - length g) (drop (length g) bs)) front)

pub drop_resume : (k g : ℕ) (bs : List ℕ) → g ≤ k → drop (k - g) (drop g bs) ≡ drop k bs
drop_resume k g bs h = drop-drop (k - g) g bs ∙ ap (λ m. drop m bs) (omega arith)

pub prefix_length : (g bs : List ℕ) → g ++ drop (length g) bs ≡ bs → length g ≤ length bs
prefix_length g bs e = omega (arith, ap length e, length-append g (drop (length g) bs))

pub prefix_nil : (g bs : List ℕ) → g ++ drop (length g) bs ≡ bs → bs ≡ [] → g ≡ []
prefix_nil [] bs e n = refl
prefix_nil (x ∷ g) bs e n = cc

leb-sub : (k g n : ℕ) → g ≤ k → g ≤ n → leb (k - g) (n - g) ≡ leb k n
leb-sub k g n h h' = ground arith

-- The error that `io.ReadFull` reports when `have` bytes come and `want` are asked for.
abbrev pub full_report : ℕ → ℕ → Option Error
full_report want have =
    if leb want have then none else if have == 0 then some Error.eof else some Error.unexpected_eof

-- What a loop that wants `k` more bytes of `bs` ends with.
record Filled {S : Type 0} (Holds : S → List ℕ → Type 0) (k : ℕ) (acc bs : List ℕ) (x : Read S)
    : Type 0 where
  pub got : x.got ≡ acc ++ take k bs
  pub holds : Holds x.next (drop k bs)
  pub err : x.err ≡ (if leb k (length bs) then none else some Error.eof)

module _ {S : Type 0} (r : Reader S) (Holds : S → List ℕ → Type 0) (D : Delivers r Holds) where
  read_loop-Filled :
      (fuel k : ℕ) (acc : List ℕ) (s : S) (bs : List ℕ)
      → r.budget s < fuel
      → Holds s bs
      → Filled Holds k acc bs (read_loop r fuel k acc s)
  unfolding read_loop
  read_loop-Filled zero k acc s bs b h = absurd (omega arith)
  read_loop-Filled (suc fuel) zero acc s bs b h = record {
    got = sym (append-nil acc);
    holds = h;
    err = ground arith;
  }
  read_loop-Filled (suc fuel) (suc k) acc s bs b h = elim st.verdict [
    | inl (ok, less) ↦ rw ok (
        further (
          read_loop-Filled fuel (suc k - length g) (acc ++ g) x.next (drop (length g) bs)
            (omega arith) st.holds))
    | inr (ended, empty) ↦ rw ended (record {
      got = ap (λ l. acc ++ l) (prefix_nil g bs st.in_order empty ∙ sym (ap (take (suc k)) empty));
      holds =
          subst (Holds x.next)
            (drop_all (length g) bs (omega (arith, ap length empty))
              ∙ sym (ap (drop (suc k)) empty))
            st.holds;
      err = ground (arith, ap length empty);
    })
  ]
    where
      x : Read S
      x = r.read (suc k) s

      g : List ℕ
      g = x.got

      st : Step r Holds (suc k) s bs x
      st = D (suc k) s bs (omega arith) h

      further :
          {y : Read S}
          → Filled Holds (suc k - length g) (acc ++ g) (drop (length g) bs) y
          → Filled Holds (suc k) acc bs y
      further {y} f = record {
        got =
            f.got
            ∙ append_assoc acc g _
            ∙ ap (λ l. acc ++ l) (resume (suc k) g bs st.fits st.in_order);
        holds = subst (Holds y.next) (drop_resume (suc k) (length g) bs st.fits) f.holds;
        err =
            f.err
            ∙ ap (λ b. if b then none else some Error.eof)
                (ap (leb (suc k - length g)) (length-drop (length g) bs)
                  ∙ leb-sub (suc k) (length g) (length bs) st.fits
                      (prefix_length g bs st.in_order));
      }

  -- On an input of any size `io.ReadFull` takes the first `want` bytes, or all there are; it reports
  -- the end of the input only if it comes before them.
  pub read_full_lem :
      (want : ℕ) (s : S) (bs : List ℕ)
      → Holds s bs
      → ((read_full r want s).got ≡ take want bs)
        × ((read_full r want s).err ≡ full_report want (length bs))
        × Holds (read_full r want s).next (drop want bs)
  unfolding read_full
  read_full_lem want s bs h =
      let f = read_loop-Filled (suc (r.budget s)) want [] s bs (omega arith) h in
      (f.got, rw (f.err, f.got) (ground (arith, length-take want bs)), f.holds)

  pub read_full_ok :
      (want : ℕ) (s : S) (bs : List ℕ)
      → Holds s bs
      → want ≤ length bs
      → ((read_full r want s).got ≡ take want bs)
        × ((read_full r want s).err ≡ none)
        × Holds (read_full r want s).next (drop want bs)
  read_full_ok want s bs h enough =
      let f = read_full_lem want s bs h in (f.0, f.1 ∙ ground arith, f.2)

  read_loop_spends :
      (fuel k : ℕ) (acc : List ℕ) (s : S) (bs : List ℕ)
      → r.budget s < fuel
      → Holds s bs
      → k ≤ length bs
      → r.budget (read_loop r fuel k acc s).next + min k 1 ≤ r.budget s
  unfolding read_loop
  read_loop_spends zero k acc s bs b h enough = absurd (omega arith)
  read_loop_spends (suc fuel) zero acc s bs b h enough = omega arith
  read_loop_spends (suc fuel) (suc k) acc s bs b h enough = elim st.verdict [
    | inl (ok, less) ↦ rw ok (
        omega (
          arith,
          less,
          read_loop_spends fuel (suc k - length x.got) (acc ++ x.got) x.next
              (drop (length x.got) bs) (omega arith) st.holds
              (omega (arith, length-drop (length x.got) bs)),
        ))
    | inr (ended, empty) ↦ absurd (omega (arith, ap length empty))
  ]
    where
      x : Read S
      x = r.read (suc k) s

      st : Step r Holds (suc k) s bs x
      st = D (suc k) s bs (omega arith) h

  -- A read that is answered in full has used up some of the reader's budget.
  pub read_full_spends :
      (want : ℕ) (s : S) (bs : List ℕ)
      → Holds s bs
      → want ≤ length bs
      → 0 < want
      → r.budget (read_full r want s).next < r.budget s
  unfolding read_full
  read_full_spends want s bs h enough pos =
      omega (arith, read_loop_spends (suc (r.budget s)) want [] s bs (omega arith) h enough)
