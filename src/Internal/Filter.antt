-- ===== src/Internal/Filter.antt =====
-- github.com/riobard/go-bloom, which the program takes as it is: one Bloom filter.
use miniproxygo.Common.{ℕ, ◌≡◌, Bool, true, false, List}

-- `fresh n rate` is `bloom.New(n, rate, doubleFNV)`, for a rate of some type of floats.
pub record Filter (R F : Type 0) : Type 0 where
  pub fresh : ℕ → R → F
  pub add : List ℕ → F → F
  pub test : List ℕ → F → Bool
  pub reset : F → F

-- A Bloom filter has no false negatives: what was added tests true, and goes on doing so whatever
-- else is added. A new filter is empty.
pub record IsFilter {R F : Type 0} (f : Filter R F) : Type 0 where
  pub test-add_self : (b : List ℕ) (s : F) → f.test b (f.add b s) ≡ true
  pub test-add : (b c : List ℕ) (s : F) → f.test b s ≡ true → f.test b (f.add c s) ≡ true
  pub test-fresh : (n : ℕ) (rate : R) (b : List ℕ) → f.test b (f.fresh n rate) ≡ false
