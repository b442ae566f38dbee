-- ===== src/Internal/Toy.antt =====
-- A Bloom filter, a ring and settings for the runs.
use miniproxygo.Common.{
  ℕ, ◌≡◌, refl, Bool, true, false, ◌&&◌, ◌||◌, List, [], ◌∷◌, none, some, arith, ◌==◌, ltb,
}
use miniproxygo.Internal.Filter.{Filter, IsFilter}
use miniproxygo.Internal.BloomRing.{BloomRing, unlocked}
use miniproxygo.Internal.SaltFilter.{Floats, Env, Salts}

abbrev pub same : List ℕ → List ℕ → Bool
same [] [] = true
same (x ∷ xs) (y ∷ ys) = x == y && same xs ys
same _ _ = false

same_self : (xs : List ℕ) → same xs xs ≡ true
same_self [] = refl
same_self (x ∷ xs) = ground (arith, same_self xs)

-- A filter for tests: the list of what was added.
abbrev pub seen_in : List ℕ → List (List ℕ) → Bool
seen_in b [] = false
seen_in b (c ∷ s) = same b c || seen_in b s

abbrev pub exact : Filter ℕ (List (List ℕ))
exact = record { fresh = λ n rate. []; add = λ b s. b ∷ s; test = seen_in; reset = λ s. [] }

seen_self : (b : List ℕ) (s : List (List ℕ)) → seen_in b (b ∷ s) ≡ true
seen_self b s = ground (arith, same_self b)

seen_more : (b c : List ℕ) (s : List (List ℕ)) → seen_in b s ≡ true → seen_in b (c ∷ s) ≡ true
seen_more b c s h = ground arith

pub exact-IsFilter : IsFilter exact
exact-IsFilter = record {
  test-add_self = seen_self;
  test-add = seen_more;
  test-fresh = λ n rate b. refl;
}

-- Three slots for one entry more than 1 each.
abbrev pub ring : BloomRing (List (List ℕ))
ring = record {
  slot_capacity = 1;
  slot_position = 0;
  slot_count = 3;
  entry_counter = 0;
  slots = [] ∷ [] ∷ [] ∷ [];
  mutex = unlocked;
}

-- Whole numbers for floats; a text is read as the number that its first byte is.
abbrev pub whole : Floats ℕ
whole = record {
  integer = λ n. n;
  millionth = 0;
  parse = λ bs. elim bs [ [] ↦ none | c ∷ cs ↦ some c ];
  is_positive = λ n. ltb 0 n;
  truncate = some;
}

-- Five entries in three slots.
abbrev pub defaults : Env
defaults = record { capacity = 5 ∷ []; fpr = []; slot = 3 ∷ [] }

abbrev pub off : Env
off = record { capacity = 0 ∷ []; fpr = []; slot = [] }

abbrev pub ready : Salts (List (List ℕ))
ready = record { saltfilter = some ring; initialized = true }
