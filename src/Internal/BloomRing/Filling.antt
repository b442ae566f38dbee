-- ===== src/Internal/BloomRing/Filling.antt =====
-- How full the slots of the ring of m_internal/bloomring.go get.
use miniproxygo.Common.{
  ℕ, zero, suc, ◌+◌, ◌/◌, ◌≤◌, ◌<◌, ◌≡◌, refl, sym, ◌∙◌, false, ◌==◌, subst, inl, inr, Bool-cases,
  ltb, ltb→ge, List, [], ◌∷◌, All, length, length-replicate, replicate, some, arith,
}
use miniproxygo.Internal.Outcome.{returns}
use miniproxygo.Internal.Filter.{Filter}
use miniproxygo.Internal.BloomRing.{
  BloomRing, unlocked, update_at, rotate, put_entry, add_entry, new_bloom_ring,
}
use miniproxygo.Internal.BloomRing.Window.{
  IsRing, rotate-IsRing, add_entry-IsRing, add-eq, add_all, returns_injective,
}

-- `P` holds of the element at this index, which exists.
abbrev pub At : {A : Type 0} → (A → Type 0) → ℕ → List A → Type 0
At P i [] = ⊥
At P zero (x ∷ xs) = P x
At P (suc i) (x ∷ xs) = At P i xs

module _ {A : Type 0} where
  At-All : (P : A → Type 0) (i : ℕ) (xs : List A) → i < length xs → All P xs → At P i xs
  At-All P i [] h all = absurd (omega arith)
  At-All P zero (x ∷ xs) h all = all.0
  At-All P (suc i) (x ∷ xs) h all = At-All P i xs (omega arith) all.1

  At-update_at :
      (P Q : A → Type 0) (op : A → A)
      → ((x : A) → P x → Q (op x))
      → (i : ℕ) (xs : List A) → At P i xs
      → At Q i (update_at i op xs)
  At-update_at P Q op step i [] h = h
  At-update_at P Q op step zero (x ∷ xs) h = step x h
  At-update_at P Q op step (suc i) (x ∷ xs) h = At-update_at P Q op step i xs h

  All-update_at :
      (P Q : A → Type 0) (op : A → A)
      → ((x : A) → P x → Q (op x))
      → (i : ℕ) (xs : List A) → At P i xs
      → All Q xs
      → All Q (update_at i op xs)
  All-update_at P Q op step i [] h all = all
  All-update_at P Q op step zero (x ∷ xs) h all = (step x h, all.1)
  All-update_at P Q op step (suc i) (x ∷ xs) h all = (all.0, All-update_at P Q op step i xs h all.1)

  All-replicate : (P : A → Type 0) (x : A) → P x → (n : ℕ) → All P (replicate n x)
  All-replicate P x h zero = tt
  All-replicate P x h (suc n) = (h, All-replicate P x h n)

-- The filter is a new or an emptied one to which `n` entries have been added since.
pub data Built {R F : Type 0} (f : Filter R F) : ℕ → F → Type 0 where
  made : (n : ℕ) (rate : R) → Built f 0 (f.fresh n rate)
  emptied : (s : F) → Built f 0 (f.reset s)
  added : {n : ℕ} {s : F} (b : List ℕ) → Built f n s → Built f (suc n) (f.add b s)

module _ {R F : Type 0} (f : Filter R F) where
  abbrev pub Within : ℕ → F → Type 0
  Within most s = (n : ℕ) × Built f n s × (n ≤ most)

  -- A well-formed ring of slots for `cap` entries: no slot holds more than `cap + 1` entries, and the
  -- current one holds as many as the counter says.
  pub record Filling (cap : ℕ) (r : BloomRing F) : Type 0 where
    pub ring : IsRing r
    pub capacity : r.slot_capacity ≡ cap
    pub every : All (Within (cap + 1)) r.slots
    pub current : At (Built f r.entry_counter) r.slot_position r.slots

  rotate-Filling : (cap : ℕ) (r : BloomRing F) → Filling cap r → Filling cap (rotate f r)
  rotate-Filling cap r v =
      let next = rotate-IsRing f r v.ring in
      let old : At (Within (cap + 1)) (rotate f r).slot_position r.slots =
        At-All (Within (cap + 1)) (rotate f r).slot_position r.slots
          (omega (arith, next.position_fits, v.ring.slots_fit)) v.every in
      record {
        ring = next;
        capacity = v.capacity;
        every =
            All-update_at (Within (cap + 1)) (Within (cap + 1)) f.reset
              (λ s w. (0, emptied s, omega arith)) (rotate f r).slot_position r.slots old v.every;
        current =
            At-update_at (Within (cap + 1)) (Built f 0) f.reset (λ s w. emptied s)
              (rotate f r).slot_position r.slots old;
      }

  put_entry-Filling :
      (cap : ℕ) (b : List ℕ) (r : BloomRing F)
      → r.entry_counter ≤ r.slot_capacity
      → Filling cap r
      → IsRing (put_entry f b r)
      → Filling cap (put_entry f b r)
  put_entry-Filling cap b r room v next = record {
    ring = next;
    capacity = v.capacity;
    every =
        All-update_at (Built f r.entry_counter) (Within (cap + 1)) (f.add b)
          (λ s built. (suc r.entry_counter, added b built, omega (arith, v.capacity)))
          r.slot_position r.slots v.current v.every;
    current =
        At-update_at (Built f r.entry_counter) (Built f (r.entry_counter + 1)) (f.add b)
          (λ s built. subst (λ n. Built f n (f.add b s)) (omega arith) (added b built))
          r.slot_position r.slots v.current;
  }

  add_entry-Filling :
      (cap : ℕ) (b : List ℕ) (r : BloomRing F) → Filling cap r → Filling cap (add_entry f b r)
  unfolding add_entry
  add_entry-Filling cap b r v =
      let next = add_entry-IsRing f b r v.ring in
      elim (Bool-cases (ltb r.slot_capacity r.entry_counter)) [
        | inl full ↦
            let valid : IsRing (put_entry f b (rotate f r)) = rw full at next in
            rw full
              (put_entry-Filling cap b (rotate f r) (omega arith) (rotate-Filling cap r v) valid)
        | inr some_room ↦
            let valid : IsRing (put_entry f b r) = rw some_room at next in
            rw some_room (put_entry-Filling cap b r (ltb→ge _ _ some_room) v valid)
      ]

  add_all-Filling :
      (cap : ℕ) (bs : List (List ℕ)) (r : BloomRing F)
      → Filling cap r
      → (r' : BloomRing F) × (add_all f bs (some r) ≡ returns (some r')) × Filling cap r'
  unfolding add_all
  add_all-Filling cap [] r v = (r, refl, v)
  add_all-Filling cap (b ∷ bs) r v =
      let (r', ran, filled) =
        add_all-Filling cap bs (add_entry f b r) (add_entry-Filling cap b r v) in
      (r', rw (add-eq f b r v.ring) ran, filled)

  new_bloom_ring-Filling :
      (slot capacity : ℕ) (rate : R) (r : BloomRing F)
      → new_bloom_ring f slot capacity rate ≡ returns r
      → Filling (capacity / slot) r
  new_bloom_ring-Filling zero capacity rate r e = unfold new_bloom_ring in cc
  new_bloom_ring-Filling (suc slot) capacity rate r e =
      let blank : F = f.fresh (capacity / suc slot) rate in
      let new : BloomRing F = record {
        slot_capacity = capacity / suc slot;
        slot_position = 0;
        slot_count = suc slot;
        entry_counter = 0;
        slots = replicate (suc slot) blank;
        mutex = unlocked;
      } in
      let known : (suc slot == 0) ≡ false = ground arith in
      let ran : new_bloom_ring f (suc slot) capacity rate ≡ returns new =
        unfold new_bloom_ring in rw known refl in
      let same : new ≡ r = returns_injective new r (sym ran ∙ e) in
      subst (Filling (capacity / suc slot)) same (record {
        ring = record {
          position_fits = omega arith;
          slots_fit = length-replicate (suc slot) blank;
          counter_fits = omega arith;
          free = refl;
        };
        capacity = refl;
        every =
            All-replicate (Within (capacity / suc slot + 1)) blank
              (0, made (capacity / suc slot) rate, omega arith) (suc slot);
        current = made (capacity / suc slot) rate;
      })

  -- Any calls of `Add` on a ring of `NewBloomRing`: they return, and no slot then holds more than
  -- `capacity / slot + 1` entries, counted from when it was made or last emptied; the current slot
  -- exists and holds exactly `entryCounter` entries.
  pub add_all-new_bloom_ring :
      (slot capacity : ℕ) (rate : R) (r : BloomRing F) (bs : List (List ℕ))
      → new_bloom_ring f slot capacity rate ≡ returns r
      → (r' : BloomRing F) × (add_all f bs (some r) ≡ returns (some r'))
        × Filling (capacity / slot) r'
  add_all-new_bloom_ring slot capacity rate r bs made_so =
      add_all-Filling (capacity / slot) bs r (new_bloom_ring-Filling slot capacity rate r made_so)
