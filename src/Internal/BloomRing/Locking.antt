-- ===== src/Internal/BloomRing/Locking.antt =====
-- The lock of the ring is not reentrant, and `Check` takes it twice.
use miniproxygo.Common.{Option, Bool, ◌⊎◌, inl, inr, ◌≡◌, ap, ◌∙◌, refl, List, ℕ, some, none, arith}
use miniproxygo.Internal.Outcome.{Outcome, returns, panics, deadlocks}
use miniproxygo.Internal.Filter.{Filter}
use miniproxygo.Internal.BloomRing.{BloomRing, Mutex, unlocked, locked, rlocked, check, test}

-- `Check` never returns: on every ring, free or held, it ends up waiting for a lock that its own
-- goroutine holds, and on a nil ring it panics.
pub check-deadlocks :
    {R F : Type 0} (f : Filter R F) (b : List ℕ) (r : BloomRing F)
    → (check f b (some r) ≡ deadlocks) × (check f b none ≡ panics)
unfolding check
check-deadlocks f b r = (ground arith, refl)

Mutex-cases : (m : Mutex) → (m ≡ unlocked) ⊎ (m ≡ locked) ⊎ ((n : ℕ) × (m ≡ rlocked n))
Mutex-cases unlocked = inl refl
Mutex-cases locked = inr (inl refl)
Mutex-cases (rlocked n) = inr (inr (n, refl))

pub pair_back :
    {A B : Type 0} {a a' : A} {b b' : B}
    → ◌≡◌ {A = Outcome (A × B)} (returns (a, b)) (returns (a', b'))
    → b ≡ b'
pair_back e = cc

never : {A : Type 0} {a : A} → ◌≡◌ {A = Outcome A} deadlocks (returns a) → ⊥
never e = cc

-- `Test` leaves the ring as it was.
pub test_same :
    {R F : Type 0} (f : Filter R F) (b : List ℕ) (q q' : Option (BloomRing F)) (seen : Bool)
    → test f b q ≡ returns (seen, q')
    → q ≡ q'
unfolding test
test_same f b none q' seen e = pair_back e
test_same f b (some r) q' seen e = elim (Mutex-cases r.mutex) [
  | inl free ↦ ap (λ m. some (record r { mutex = m })) free ∙ pair_back (rw free at e)
  | inr (inl held) ↦ absurd (never (rw held at e))
  | inr (inr (n, shared)) ↦ shared_same n shared
]
  where
    shared_same : (n : ℕ) → r.mutex ≡ rlocked n → some r ≡ q'
    shared_same n shared =
        ap (λ m. some (record r { mutex = m })) shared ∙ pair_back (rw shared at e)
