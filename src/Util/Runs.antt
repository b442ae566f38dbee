-- ===== src/Util/Runs.antt =====
-- Runs of m_util/utils.go on a source that repeats itself.
use miniproxygo.Common.{ℕ, ◌+◌, ◌*◌, ◌≡◌, refl, arith, some, [], take, codes}
use miniproxygo.Util.{letters_loop, rand_string}
use miniproxygo.Util.Letters.{indices, letters_of, backwards, rand_string-letters}

-- The indices 1, 63 and 2, and seven times 0.
abbrev word : ℕ → ℕ
word k = 1 + 63 * 64 + 2 * 4096

three_letters : rand_string word 10 0 3 ≡ some (codes "021", 1)
unfolding rand_string letters_loop
three_letters = refl

rand_string-letters_example :
    (next : ℕ) × (rand_string word 20 0 12
      ≡ some (backwards (take 12 (letters_of (indices word 0 2))) [], next))
rand_string-letters_example = rand_string-letters word 0 12 2 20 (omega arith) (omega arith)
