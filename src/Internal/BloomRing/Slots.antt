-- ===== src/Internal/BloomRing/Slots.antt =====
-- One slot of the ring under the operations on its neighbours.
use miniproxygo.Common.{
  ℕ, zero, suc, ◌<◌, ◌≡◌, ◌≢◌, refl, ap, true, false, List, [], ◌∷◌, length, arith, replicate,
}
use miniproxygo.Internal.Filter.{Filter, IsFilter}
use miniproxygo.Internal.BloomRing.{update_at, test_slots}

module _ {R F : Type 0} (f : Filter R F) where
  -- Slot `p` reports `b`.
  abbrev pub TestsAt : List ℕ → ℕ → List F → Type 0
  TestsAt b p [] = ⊥
  TestsAt b zero (s ∷ slots) = f.test b s ≡ true
  TestsAt b (suc p) (s ∷ slots) = TestsAt b p slots

  pub length-update_at :
      (i : ℕ) (op : F → F) (slots : List F) → length (update_at i op slots) ≡ length slots
  length-update_at i op [] = refl
  length-update_at zero op (s ∷ slots) = refl
  length-update_at (suc i) op (s ∷ slots) = ap suc (length-update_at i op slots)

  pub test_slots-TestsAt :
      (b : List ℕ) (p : ℕ) (slots : List F) → TestsAt b p slots → test_slots f b slots ≡ true
  unfolding test_slots
  test_slots-TestsAt b p [] h = absurd h
  test_slots-TestsAt b zero (s ∷ slots) h = rw h
  test_slots-TestsAt b (suc p) (s ∷ slots) h = ground (arith, test_slots-TestsAt b p slots h)

  pub TestsAt-update_ne :
      (b : List ℕ) (p i : ℕ) (op : F → F) (slots : List F)
      → i ≢ p
      → TestsAt b p slots
      → TestsAt b p (update_at i op slots)
  TestsAt-update_ne b p i op [] ne h = absurd h
  TestsAt-update_ne b zero zero op (s ∷ slots) ne h = absurd (ne refl)
  TestsAt-update_ne b zero (suc i) op (s ∷ slots) ne h = h
  TestsAt-update_ne b (suc p) zero op (s ∷ slots) ne h = h
  TestsAt-update_ne b (suc p) (suc i) op (s ∷ slots) ne h =
      TestsAt-update_ne b p i op slots (λ e. ne (ap suc e)) h

  module _ (laws : IsFilter f) where
    pub TestsAt-add :
        (b c : List ℕ) (p i : ℕ) (slots : List F)
        → TestsAt b p slots
        → TestsAt b p (update_at i (f.add c) slots)
    TestsAt-add b c p i [] h = absurd h
    TestsAt-add b c zero zero (s ∷ slots) h = laws.test-add b c s h
    TestsAt-add b c zero (suc i) (s ∷ slots) h = h
    TestsAt-add b c (suc p) zero (s ∷ slots) h = h
    TestsAt-add b c (suc p) (suc i) (s ∷ slots) h = TestsAt-add b c p i slots h

    pub TestsAt-add_self :
        (b : List ℕ) (i : ℕ) (slots : List F)
        → i < length slots
        → TestsAt b i (update_at i (f.add b) slots)
    TestsAt-add_self b i [] h = absurd (omega arith)
    TestsAt-add_self b zero (s ∷ slots) h = laws.test-add_self b s
    TestsAt-add_self b (suc i) (s ∷ slots) h = TestsAt-add_self b i slots (omega arith)

    pub test_slots-fresh :
        (b : List ℕ) (n : ℕ) (rate : R) (k : ℕ)
        → test_slots f b (replicate k (f.fresh n rate)) ≡ false
    unfolding test_slots
    test_slots-fresh b n rate zero = refl
    test_slots-fresh b n rate (suc k) =
        ground (arith, laws.test-fresh n rate b, test_slots-fresh b n rate k)
