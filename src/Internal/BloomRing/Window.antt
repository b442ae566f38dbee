-- ===== src/Internal/BloomRing/Window.antt =====
-- The window of the ring: what was added is still reported after any
-- `(slotCount - 1) * (slotCapacity + 1)` further entries.
use native.Mathlib.Nat.{mod-eq_of_lt, mod_self}
use miniproxygo.Common.{
  ℕ, zero, suc, ◌+◌, ◌-◌, ◌*◌, ◌/◌, ◌%◌, ◌≤◌, ◌<◌, ◌≡◌, ◌≢◌, refl, sym, ap, ◌∙◌, subst, ◌⊎◌, inl,
  inr, Bool, true, false, Bool-cases, List, [], ◌∷◌, length, arith, ltb, ltb→lt, ltb→ge, some,
  Option, replicate, length-replicate, ◌==◌,
}
use miniproxygo.Internal.Outcome.{Outcome, returns, ◌>>=◌}
use miniproxygo.Internal.Filter.{Filter, IsFilter}
use miniproxygo.Internal.BloomRing.{
  BloomRing, unlocked, rotate, put_entry, add_entry, add, test, test_slots, new_bloom_ring,
}
use miniproxygo.Internal.BloomRing.Slots.{
  TestsAt, length-update_at, test_slots-TestsAt, TestsAt-update_ne, TestsAt-add, TestsAt-add_self,
  test_slots-fresh,
}

-- Well-formedness of a ring; no goroutine holds its lock.
pub record IsRing {F : Type 0} (r : BloomRing F) : Type 0 where
  pub position_fits : r.slot_position < r.slot_count
  pub slots_fit : length r.slots ≡ r.slot_count
  pub counter_fits : r.entry_counter ≤ r.slot_capacity + 1
  pub free : r.mutex ≡ unlocked

pub returns_injective : {A : Type 0} (a b : A) → returns a ≡ returns b → a ≡ b
returns_injective a b e = cc

-- The next position as a test instead of a remainder.
next_position :
    (p n : ℕ) → p < n → (p + 1 < n → (p + 1) % n ≡ p + 1) × (p + 1 ≡ n → (p + 1) % n ≡ 0)
next_position p n h = (λ lt. mod-eq_of_lt lt, λ e. rw e (mod_self n))

module _ {R F : Type 0} (f : Filter R F) where
  -- `b` stands in a slot that `gap` more rotations leave alone: at least `budget` more entries.
  pub record Remembers (b : List ℕ) (budget : ℕ) (r : BloomRing F) : Type 0 where
    pub slot : ℕ
    pub gap : ℕ
    pub slot_fits : slot < r.slot_count
    pub gap_fits : gap < r.slot_count
    pub ahead :
        (r.slot_position + gap + 1 ≡ slot + r.slot_count) ⊎ (r.slot_position + gap + 1 ≡ slot)
    pub held : TestsAt f b slot r.slots
    pub enough : budget + r.entry_counter ≤ gap * (r.slot_capacity + 1) + (r.slot_capacity + 1)

  pub rotate-IsRing : (r : BloomRing F) → IsRing r → IsRing (rotate f r)
  rotate-IsRing r v =
      let (inner, last) = next_position r.slot_position r.slot_count v.position_fits in
      record {
        position_fits = omega arith;
        slots_fit =
            length-update_at f ((r.slot_position + 1) % r.slot_count) f.reset r.slots ∙ v.slots_fit;
        counter_fits = omega arith;
        free = v.free;
      }

  put_entry-IsRing :
      (b : List ℕ) (r : BloomRing F)
      → r.entry_counter ≤ r.slot_capacity
      → IsRing r
      → IsRing (put_entry f b r)
  put_entry-IsRing b r h v = record {
    position_fits = v.position_fits;
    slots_fit = length-update_at f r.slot_position (f.add b) r.slots ∙ v.slots_fit;
    counter_fits = omega arith;
    free = v.free;
  }

  -- An entry keeps the ring well formed: the current slot exists, and the counter is at most
  -- `slotCapacity + 1`.
  pub add_entry-IsRing : (b : List ℕ) (r : BloomRing F) → IsRing r → IsRing (add_entry f b r)
  unfolding add_entry
  add_entry-IsRing b r v = elim (Bool-cases (ltb r.slot_capacity r.entry_counter)) [
    | inl full ↦ rw full (put_entry-IsRing b (rotate f r) (omega arith) (rotate-IsRing r v))
    | inr some_room ↦ rw some_room (put_entry-IsRing b r (ltb→ge _ _ some_room) v)
  ]

  module _ (laws : IsFilter f) where
    put_entry-Remembers :
        (b c : List ℕ) (k : ℕ) (r : BloomRing F)
        → Remembers b (suc k) r
        → Remembers b k (put_entry f c r)
    put_entry-Remembers b c k r m = record {
      slot = m.slot;
      gap = m.gap;
      slot_fits = m.slot_fits;
      gap_fits = m.gap_fits;
      ahead = m.ahead;
      held = TestsAt-add f laws b c m.slot r.slot_position r.slots m.held;
      enough = omega (arith, m.enough);
    }

    -- A rotation brings the next reset of `b`'s slot one step nearer.
    nearer :
        (p n s g : ℕ)
        → p < n
        → s < n
        → suc g < n
        → (p + suc g + 1 ≡ s + n) ⊎ (p + suc g + 1 ≡ s)
        → (((p + 1) % n + g + 1 ≡ s + n) ⊎ ((p + 1) % n + g + 1 ≡ s)) × ((p + 1) % n ≢ s)
    nearer p n s g hp hs hg e =
        let (inner, last) = next_position p n hp in
        elim e [
          | inl x ↦ elim (Bool-cases (ltb (p + 1) n)) [
            | inl in_range ↦ (
              inl (omega (arith, inner (ltb→lt _ _ in_range))),
              λ c. omega (arith, inner (ltb→lt _ _ in_range)),
            )
            | inr at_end ↦
                let ends : p + 1 ≡ n = omega (arith, ltb→ge (p + 1) n at_end) in
                let zero_next = last ends in (inr (omega arith), λ c. omega arith)
          ]
          | inr x ↦
              (inr (omega (arith, inner (omega arith))), λ c. omega (arith, inner (omega arith)))
        ]

    rotate-Remembers :
        (b : List ℕ) (k : ℕ) (r : BloomRing F)
        → IsRing r
        → r.slot_capacity < r.entry_counter
        → (g : ℕ) (m : Remembers b (suc k) r) → m.gap ≡ g
        → Remembers b (suc k) (rotate f r)
    rotate-Remembers b k r v full zero m e =
        absurd (omega (arith, m.enough, e, ap (λ (t : ℕ). t * (r.slot_capacity + 1)) e))
    rotate-Remembers b k r v full (suc g) m e =
        let near =
          nearer r.slot_position r.slot_count m.slot g v.position_fits m.slot_fits
            (omega (arith, m.gap_fits, e))
            (elim m.ahead [ inl x ↦ inl (omega arith) | inr x ↦ inr (omega arith) ]) in
        record {
          slot = m.slot;
          gap = g;
          slot_fits = m.slot_fits;
          gap_fits = omega (arith, m.gap_fits, e);
          ahead = near.0;
          held =
              TestsAt-update_ne f b m.slot ((r.slot_position + 1) % r.slot_count) f.reset r.slots
                near.1 m.held;
          enough = omega (arith, m.enough, ap (λ (t : ℕ). t * (r.slot_capacity + 1)) e);
        }

    add_entry-Remembers :
        (b c : List ℕ) (k : ℕ) (r : BloomRing F)
        → IsRing r
        → Remembers b (suc k) r
        → Remembers b k (add_entry f c r)
    unfolding add_entry
    add_entry-Remembers b c k r v m = elim (Bool-cases (ltb r.slot_capacity r.entry_counter)) [
      | inl full ↦ rw full (
          put_entry-Remembers b c k (rotate f r)
            (rotate-Remembers b k r v (ltb→lt _ _ full) m.gap m refl))
      | inr some_room ↦ rw some_room (put_entry-Remembers b c k r m)
    ]

    put_entry_starts :
        (b : List ℕ) (r : BloomRing F)
        → r.entry_counter ≤ r.slot_capacity
        → IsRing r
        → (n : ℕ) → suc n ≡ r.slot_count
        → Remembers b (n * (r.slot_capacity + 1)) (put_entry f b r)
    put_entry_starts b r h v n e = record {
      slot = r.slot_position;
      gap = n;
      slot_fits = v.position_fits;
      gap_fits = omega arith;
      ahead = inl (omega arith);
      held =
          TestsAt-add_self f laws b r.slot_position r.slots
            (omega (arith, v.slots_fit, v.position_fits));
      enough = omega arith;
    }

    add_entry_starts :
        (b : List ℕ) (r : BloomRing F)
        → IsRing r
        → (n : ℕ) → suc n ≡ r.slot_count
        → Remembers b (n * (r.slot_capacity + 1)) (add_entry f b r)
    unfolding add_entry
    add_entry_starts b r v n e = elim (Bool-cases (ltb r.slot_capacity r.entry_counter)) [
      | inl full ↦ rw full (put_entry_starts b (rotate f r) (omega arith) (rotate-IsRing r v) n e)
      | inr some_room ↦ rw some_room (put_entry_starts b r (ltb→ge _ _ some_room) v n e)
    ]

  -- The methods on a ring that nobody holds: they return, and leave it free.
  pub add-eq :
      (b : List ℕ) (r : BloomRing F)
      → IsRing r
      → add f b (some r) ≡ returns (some (add_entry f b r))
  unfolding add
  add-eq b r v = ground (arith, v.free, (add_entry-IsRing b r v).free)

  pub test-eq :
      (b : List ℕ) (r : BloomRing F)
      → IsRing r
      → test f b (some r) ≡ returns (test_slots f b r.slots, some r)
  unfolding test
  test-eq b r v = ground (arith, v.free)

  -- `Add` for each entry in turn.
  unfoldable pub add_all : List (List ℕ) → Option (BloomRing F) → Outcome (Option (BloomRing F))
  add_all [] p = returns p
  add_all (c ∷ cs) p = add f c p >>= add_all cs

  -- `Add(b)`, `Add` for each of `cs`, and `Test(b)`.
  unfoldable pub add_then_test : List ℕ → List (List ℕ) → Option (BloomRing F) → Outcome Bool
  unfolding add_all
  add_then_test b cs p = do
    p' ← add f b p
    p'' ← add_all cs p'
    (seen, _) ← test f b p''
    returns seen

  module _ (laws : IsFilter f) where
    remembered :
        (b : List ℕ) (cs : List (List ℕ)) (k : ℕ) (r : BloomRing F)
        → IsRing r
        → Remembers b k r
        → length cs ≤ k
        → (r' : BloomRing F) × (add_all cs (some r) ≡ returns (some r'))
          × IsRing r'
          × (test_slots f b r'.slots ≡ true)
    unfolding add_all
    remembered b [] k r v m h = (r, refl, v, test_slots-TestsAt f b m.slot r.slots m.held)
    remembered b (c ∷ cs) zero r v m h = absurd (omega arith)
    remembered b (c ∷ cs) (suc k) r v m h =
        let (r', e, v', seen) =
          remembered b cs k (add_entry f c r) (add_entry-IsRing c r v)
            (add_entry-Remembers laws b c k r v m) (omega arith) in
        (r', rw (add-eq c r v) e, v', seen)

    -- No false negatives inside the window: on a well-formed ring of `n + 1` slots, an entry is
    -- still reported after any `n * (slotCapacity + 1)` further entries, or fewer.
    pub test-add_window :
        (b : List ℕ) (cs : List (List ℕ)) (n : ℕ) (r : BloomRing F)
        → IsRing r
        → suc n ≡ r.slot_count
        → length cs ≤ n * (r.slot_capacity + 1)
        → add_then_test b cs (some r) ≡ returns true
    unfolding add_then_test
    test-add_window b cs n r v e h =
        let v' = add_entry-IsRing b r v in
        let (r', went, v2, seen) =
          remembered b cs (n * (r.slot_capacity + 1)) (add_entry f b r) v'
            (add_entry_starts laws b r v n e) h in
        rw (add-eq b r v) (rw went (rw (test-eq b r' v2) (ap returns seen)))

    pub test_slots-add_entry :
        (b : List ℕ) (r : BloomRing F) → IsRing r → test_slots f b (add_entry f b r).slots ≡ true
    test_slots-add_entry b r v =
        let m = add_entry_starts laws b r v (r.slot_count - 1) (omega (arith, v.position_fits)) in
        test_slots-TestsAt f b m.slot (add_entry f b r).slots m.held

    -- A new ring is well formed and reports nothing.
    pub new_bloom_ring-IsRing :
        (slot capacity : ℕ) (rate : R)
        → 0 < slot
        → (r : BloomRing F) × (new_bloom_ring f slot capacity rate ≡ returns r)
          × IsRing r
          × ((b : List ℕ) → test_slots f b r.slots ≡ false)
    unfolding new_bloom_ring
    new_bloom_ring-IsRing slot capacity rate pos =
        let known : (slot == 0) ≡ false = ground arith in
        (
          record {
            slot_capacity = capacity / slot;
            slot_position = 0;
            slot_count = slot;
            entry_counter = 0;
            slots = replicate slot (f.fresh (capacity / slot) rate);
            mutex = unlocked;
          },
          rw known,
          record {
            position_fits = pos;
            slots_fit = length-replicate slot _;
            counter_fits = omega arith;
            free = refl;
          },
          λ b. test_slots-fresh f laws b (capacity / slot) rate slot,
        )

    pub new_bloom_ring_sound :
        (slot capacity : ℕ) (rate : R) (r : BloomRing F)
        → new_bloom_ring f slot capacity rate ≡ returns r
        → IsRing r
    new_bloom_ring_sound zero capacity rate r e = unfold new_bloom_ring in cc
    new_bloom_ring_sound (suc slot) capacity rate r e =
        let (made, eq, valid, empty) =
          new_bloom_ring-IsRing (suc slot) capacity rate (omega arith) in
        subst IsRing (returns_injective made r (sym eq ∙ e)) valid
