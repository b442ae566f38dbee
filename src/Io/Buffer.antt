-- ===== src/Io/Buffer.antt =====
-- `bytes.Buffer` as a reader: a slice in memory.
use miniproxygo.Common.{
  ℕ, zero, suc, ◌<◌, ◌≡◌, refl, sym, inl, inr, none, some, List, [], ◌∷◌, length, take, drop,
  if◌then◌else◌, ◌==◌, arith, take-append-drop, length-take, length-drop, subst,
}
use miniproxygo.Io.{Error, Read, Reader, Step, Delivers}

read_buffer : ℕ → List ℕ → Read (List ℕ)
read_buffer n [] = record { got = []; err = if n == 0 then none else some Error.eof; next = [] }
read_buffer n (x ∷ xs) = record { got = take n (x ∷ xs); err = none; next = drop n (x ∷ xs) }

unfoldable pub buffer : Reader (List ℕ)
unfolding read_buffer
buffer = record { read = read_buffer; budget = length }

abbrev pub Holding : List ℕ → List ℕ → Type 0
Holding s bs = s ≡ bs

drop_taken : (n : ℕ) (xs : List ℕ) → drop (length (take n xs)) xs ≡ drop n xs
drop_taken zero xs = refl
drop_taken (suc n) [] = refl
drop_taken (suc n) (x ∷ xs) = drop_taken n xs

read_buffer-Step : (n : ℕ) (s : List ℕ) → 0 < n → Step buffer Holding n s s (read_buffer n s)
unfolding buffer
read_buffer-Step n [] h = record {
  fits = omega arith;
  in_order = refl;
  holds = refl;
  verdict = inr (ground arith, refl);
}
read_buffer-Step n (x ∷ xs) h = record {
  fits = omega (arith, length-take n (x ∷ xs));
  in_order = rw (drop_taken n (x ∷ xs)) (take-append-drop n (x ∷ xs));
  holds = sym (drop_taken n (x ∷ xs));
  verdict = inl (refl, omega (arith, length-drop n (x ∷ xs)));
}

pub buffer-Delivers : Delivers buffer Holding
unfolding buffer
buffer-Delivers n s bs h e =
    subst (λ l. Step buffer Holding n s l (buffer.read n s)) e (read_buffer-Step n s h)
