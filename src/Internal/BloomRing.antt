-- ===== src/Internal/BloomRing.antt =====
-- `BloomRing` of m_internal/bloomring.go. A method on the pointer receiver takes the ring, or `none`
-- for a nil pointer, and returns the ring behind the call.
pub mod Slots
pub mod Window
pub mod Filling
pub mod Locking
use miniproxygo.Common.{
  ℕ, zero, suc, ◌+◌, ◌/◌, ◌%◌, ltb, if◌then◌else◌, ◌==◌, ◌||◌, Bool, true, false, Option, none,
  some, List, [], ◌∷◌, replicate,
}
use miniproxygo.Internal.Outcome.{Outcome, returns, panics, deadlocks, ◌>>=◌}
use miniproxygo.Internal.Filter.{Filter}

-- `sync.RWMutex` as the one goroutine sees it that uses it here: free, held for writing, or held for
-- reading once and `n` times more.
pub data Mutex : Type 0 where
  unlocked locked : Mutex
  rlocked : ℕ → Mutex

pub record BloomRing (F : Type 0) : Type 0 where
  pub slot_capacity : ℕ
  pub slot_position : ℕ
  pub slot_count : ℕ
  pub entry_counter : ℕ
  pub slots : List F
  pub mutex : Mutex

-- `slots[i].Op()` for a filter that the ring shares with nobody.
abbrev pub update_at {ℓ} : {A : Type ℓ} → ℕ → (A → A) → List A → List A
update_at i op [] = []
update_at zero op (x ∷ xs) = op x ∷ xs
update_at (suc i) op (x ∷ xs) = x ∷ update_at i op xs

-- `Lock`: it waits while the mutex is held in either way.
lock : Mutex → Outcome Mutex
lock unlocked = returns locked
lock locked = deadlocks
lock (rlocked n) = deadlocks

-- `RLock`: it waits for a writer.
rlock : Mutex → Outcome Mutex
rlock unlocked = returns (rlocked 0)
rlock locked = deadlocks
rlock (rlocked n) = returns (rlocked (suc n))

-- `Unlock` and `RUnlock` of a mutex that is not held so are fatal.
unlock : Mutex → Outcome Mutex
unlock locked = returns unlocked
unlock _ = panics

runlock : Mutex → Outcome Mutex
runlock (rlocked zero) = returns unlocked
runlock (rlocked (suc n)) = returns (rlocked n)
runlock _ = panics

module _ {R F : Type 0} (f : Filter R F) where
  -- `NewBloomRing` for non-negative arguments; the division by `slot` panics at 0.
  unfoldable pub new_bloom_ring : ℕ → ℕ → R → Outcome (BloomRing F)
  new_bloom_ring slot capacity rate =
      if slot == 0
      then panics
      else returns (record {
        slot_capacity = capacity / slot;
        slot_position = 0;
        slot_count = slot;
        entry_counter = 0;
        slots = replicate slot (f.fresh (capacity / slot) rate);
        mutex = unlocked;
      })

  -- The `if` of `add`: the next slot is emptied and becomes the current one.
  abbrev pub rotate : BloomRing F → BloomRing F
  rotate r =
      let position = (r.slot_position + 1) % r.slot_count in
      record r {
        slot_position = position;
        slots = update_at position f.reset r.slots;
        entry_counter = 0;
      }

  abbrev pub put_entry : List ℕ → BloomRing F → BloomRing F
  put_entry b r = record r {
    entry_counter = r.entry_counter + 1;
    slots = update_at r.slot_position (f.add b) r.slots;
  }

  -- `add`
  unfoldable pub add_entry : List ℕ → BloomRing F → BloomRing F
  add_entry b r = put_entry b (if ltb r.slot_capacity r.entry_counter then rotate r else r)

  -- `test`
  unfoldable pub test_slots : List ℕ → List F → Bool
  test_slots b [] = false
  test_slots b (s ∷ slots) = f.test b s || test_slots b slots

  -- `Add`; the deferred `Unlock` runs at the end.
  unfoldable pub add : List ℕ → Option (BloomRing F) → Outcome (Option (BloomRing F))
  unfolding lock unlock
  add b none = returns none
  add b (some r) = do
    held ← lock r.mutex
    free ← unlock held
    returns (some (record (add_entry b r) { mutex = free }))

  -- `Test`
  unfoldable pub test : List ℕ → Option (BloomRing F) → Outcome (Bool × Option (BloomRing F))
  unfolding rlock runlock
  test b none = returns (false, none)
  test b (some r) = do
    held ← rlock r.mutex
    free ← runlock held
    returns (test_slots b r.slots, some (record r { mutex = free }))

  -- The deferred `Unlock` of `Check`.
  abbrev release : Bool → Option (BloomRing F) → Outcome (Bool × Option (BloomRing F))
  release seen none = panics
  release seen (some r) =
      unlock r.mutex >>= λ free. returns (seen, some (record r { mutex = free }))

  -- `Check`: it locks the mutex, and then calls the methods that lock it once more.
  unfoldable pub check : List ℕ → Option (BloomRing F) → Outcome (Bool × Option (BloomRing F))
  unfolding lock unlock add test
  check b none = panics
  check b (some r) = do
    held ← lock r.mutex
    (seen, r') ← test b (some (record r { mutex = held }))
    if seen then release true r' else (add b r' >>= release false)
