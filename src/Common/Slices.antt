-- ===== src/Common/Slices.antt =====
-- Go's slices of a byte array: `xs[lo:hi]`, and a copy into the array at an offset.
use Prim.Native.Nat.{ℕ, ◌+◌, ◌-◌, ◌≤◌}
use mathlib.Core.Path.{◌≡◌, sym, ap, ◌∙◌}
use mathlib.Core.List.{List, ◌++◌, append_assoc}
use native.Mathlib.Omega.{arith}
use miniproxygo.Common.Lists.{
  length, take, drop, length-append, length-take, length-drop, take-append, take-append_le,
  drop-append, drop-append_ge, drop-drop, take-take,
}

module _ {ℓ} {A : Type ℓ} where
  -- `xs[lo:hi]`
  abbrev pub slice : ℕ → ℕ → List A → List A
  slice lo hi xs = take (hi - lo) (drop lo xs)

  -- `copy(xs[at:], new)` where `new` fits.
  abbrev pub splice : ℕ → List A → List A → List A
  splice at new xs = take at xs ++ (new ++ drop (at + length new) xs)

  pub length-splice :
      (at : ℕ) (new xs : List A)
      → at + length new ≤ length xs
      → length (splice at new xs) ≡ length xs
  length-splice at new xs h = omega (
    arith,
    length-append (take at xs) (new ++ drop (at + length new) xs),
    length-append new (drop (at + length new) xs),
    length-take at xs,
    length-drop (at + length new) xs,
  )

  -- What stands in front of the end of a splice, behind it, before its start, and at its place.
  pub take-splice :
      (m at : ℕ) (new xs : List A)
      → at ≤ length xs
      → m ≡ at + length new
      → take m (splice at new xs) ≡ take at xs ++ new
  take-splice m at new xs h e =
      ap (take m) (sym (append_assoc (take at xs) new (drop (at + length new) xs)))
      ∙ take-append m (take at xs ++ new) (drop (at + length new) xs)
          (omega (arith, length-append (take at xs) new, length-take at xs))

  pub drop-splice :
      (n at : ℕ) (new xs : List A)
      → at ≤ length xs
      → at + length new ≤ n
      → drop n (splice at new xs) ≡ drop n xs
  drop-splice n at new xs h e =
      let size : length (take at xs ++ new) ≡ at + length new =
        omega (arith, length-append (take at xs) new, length-take at xs) in
      ap (drop n) (sym (append_assoc (take at xs) new (drop (at + length new) xs)))
      ∙ drop-append_ge n (take at xs ++ new) (drop (at + length new) xs) (omega (arith, size))
      ∙ ap (λ k. drop (n - k) (drop (at + length new) xs)) size
      ∙ drop-drop (n - (at + length new)) (at + length new) xs
      ∙ ap (λ k. drop k xs) (omega arith)

  pub take-splice_before :
      (m at : ℕ) (new xs : List A) → at ≤ length xs → m ≤ at → take m (splice at new xs) ≡ take m xs
  take-splice_before m at new xs h e =
      take-append_le m (take at xs) (new ++ drop (at + length new) xs)
        (omega (arith, length-take at xs))
      ∙ take-take m at xs e

  pub slice-splice :
      (at hi : ℕ) (new xs : List A)
      → at ≤ length xs
      → hi ≡ at + length new
      → slice at hi (splice at new xs) ≡ new
  slice-splice at hi new xs h e =
      ap (take (hi - at)) (
        drop-append at (take at xs) (new ++ drop (at + length new) xs)
          (omega (arith, length-take at xs)))
      ∙ take-append (hi - at) new (drop (at + length new) xs) (omega arith)

  -- `copy(xs[at:], src)`: as much as there is room for.
  abbrev pub copy_at : ℕ → List A → List A → List A
  copy_at at src xs = splice at (take (length xs - at) src) xs
