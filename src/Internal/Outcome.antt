-- ===== src/Internal/Outcome.antt =====
-- How a call ends: with a value, with a panic, or never, because the calling goroutine waits for a
-- lock that it holds itself.
use miniproxygo.Common.{◌≡◌, refl}

pub data Outcome (A : Type 0) : Type 0 where
  returns : A → Outcome A
  panics : Outcome A
  deadlocks : Outcome A

infixl 5 ◌>>=◌
abbrev pub ◌>>=◌ : {A B : Type 0} → Outcome A → (A → Outcome B) → Outcome B
returns a >>= f = f a
panics >>= f = panics
deadlocks >>= f = deadlocks

-- A sequence that returns has returned from its first part.
pub >>=-returns :
    {A B : Type 0} (m : Outcome A) (k : A → Outcome B) (b : B)
    → (m >>= k) ≡ returns b
    → (a : A) × (m ≡ returns a) × (k a ≡ returns b)
>>=-returns (returns a) k b e = (a, refl, e)
>>=-returns panics k b e = cc
>>=-returns deadlocks k b e = cc
