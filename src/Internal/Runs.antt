-- ===== src/Internal/Runs.antt =====
-- Small runs of the replay filter, and its theorems at concrete inputs.
use miniproxygo.Common.{ℕ, ◌≡◌, refl, true, false, List, [], ◌∷◌, none, some, arith}
use miniproxygo.Internal.Outcome.{returns, panics, deadlocks}
use miniproxygo.Internal.Toy.{exact, exact-IsFilter, ring, whole, defaults, off, ready}
use miniproxygo.Internal.BloomRing.{
  BloomRing, new_bloom_ring, add_entry, test_slots, add, test, check,
}
use miniproxygo.Internal.BloomRing.Window.{IsRing, add_all, add_then_test, test-add_window}
use miniproxygo.Internal.BloomRing.Filling.{Filling, add_all-new_bloom_ring}
use miniproxygo.Internal.BloomRing.Locking.{check-deadlocks}
use miniproxygo.Internal.SaltFilter.{Salts, init_saltfilter, get_salt_filter_singleton, add_salt}
use miniproxygo.Internal.SaltFilter.Singleton.{get_salt_filter_singleton_once}

ring_made : new_bloom_ring exact 3 5 0 ≡ returns ring
unfolding new_bloom_ring
ring_made = refl

ring-IsRing : IsRing ring
ring-IsRing = record {
  position_fits = omega arith;
  slots_fit = refl;
  counter_fits = omega arith;
  free = refl;
}

test-add_window_example :
    add_then_test exact (9 ∷ []) ((1 ∷ []) ∷ (2 ∷ []) ∷ (3 ∷ []) ∷ (4 ∷ []) ∷ []) (some ring)
    ≡ returns true
test-add_window_example =
    test-add_window exact exact-IsFilter (9 ∷ []) ((1 ∷ []) ∷ (2 ∷ []) ∷ (3 ∷ []) ∷ (4 ∷ []) ∷ []) 2
      ring ring-IsRing refl (omega arith)

-- Two entries later the slot of the first one has been emptied.
forgets :
    add_then_test exact
      (9 ∷ [])
      ((1 ∷ []) ∷ (2 ∷ []) ∷ (3 ∷ []) ∷ (4 ∷ []) ∷ (5 ∷ []) ∷ (6 ∷ []) ∷ [])
      (some ring)
    ≡ returns false
unfolding add_then_test add test add_entry test_slots
forgets = refl

-- Five entries in three slots of two.
add_all-new_bloom_ring_example :
    (r' : BloomRing (List (List ℕ))) × (add_all exact
        ((1 ∷ []) ∷ (2 ∷ []) ∷ (3 ∷ []) ∷ (4 ∷ []) ∷ (5 ∷ []) ∷ [])
        (some ring)
      ≡ returns (some r'))
    × Filling exact 1 r'
add_all-new_bloom_ring_example =
    add_all-new_bloom_ring exact 3 5 0 ring
      ((1 ∷ []) ∷ (2 ∷ []) ∷ (3 ∷ []) ∷ (4 ∷ []) ∷ (5 ∷ []) ∷ []) ring_made

check-deadlocks_example :
    (check exact (9 ∷ []) (some ring) ≡ deadlocks) × (check exact (9 ∷ []) none ≡ panics)
check-deadlocks_example = check-deadlocks exact (9 ∷ []) ring

abbrev start : Salts (List (List ℕ))
start = record { saltfilter = none; initialized = false }

abbrev disabled : Salts (List (List ℕ))
disabled = record { saltfilter = none; initialized = true }

made_once : get_salt_filter_singleton whole exact defaults start ≡ returns ready
unfolding get_salt_filter_singleton init_saltfilter new_bloom_ring
made_once = refl

made_off : get_salt_filter_singleton whole exact off start ≡ returns disabled
unfolding get_salt_filter_singleton init_saltfilter
made_off = refl

get_salt_filter_singleton_once_example :
    get_salt_filter_singleton whole exact off ready ≡ returns ready
get_salt_filter_singleton_once_example =
    get_salt_filter_singleton_once whole exact defaults off start ready made_once

abbrev added : Salts (List (List ℕ))
added = record {
  saltfilter = some (record ring { entry_counter = 1; slots = ((9 ∷ []) ∷ []) ∷ [] ∷ [] ∷ [] });
  initialized = true;
}

added_salt : add_salt whole exact defaults (9 ∷ []) ready ≡ returns added
unfolding add_salt get_salt_filter_singleton add add_entry
added_salt = refl
