-- ===== src/Internal/SaltFilter.antt =====
-- m_internal/saltfilter.go: the ring that all connections of the process share.
pub mod Singleton
use miniproxygo.Common.{ℕ, Option, none, some, List, [], ◌∷◌, Bool, true, false, if◌then◌else◌}
use miniproxygo.Internal.Outcome.{Outcome, returns, panics, ◌>>=◌}
use miniproxygo.Internal.Filter.{Filter}
use miniproxygo.Internal.BloomRing.{BloomRing, new_bloom_ring, add, test}

-- Go's `float64`, as far as the settings use it. `truncate x` is `int(x)`, or `none` if that is
-- negative; `integer n` is the constant `n`, `millionth` is `1e-6`; `parse` is `strconv.ParseFloat` on the bytes of a text.
pub record Floats (R : Type 0) : Type 0 where
  pub integer : ℕ → R
  pub millionth : R
  pub parse : List ℕ → Option R
  pub is_positive : R → Bool
  pub truncate : R → Option ℕ

-- The environment variables SHADOWSOCKS_SF_CAPACITY, _FPR and _SLOT; an unset one is empty.
pub record Env : Type 0 where
  pub capacity : List ℕ
  pub fpr : List ℕ
  pub slot : List ℕ

-- The variables `saltfilter` and `initSaltfilterOnce`.
pub record Salts (F : Type 0) : Type 0 where
  pub saltfilter : Option (BloomRing F)
  pub initialized : Bool

module _ {R F : Type 0} (x : Floats R) (f : Filter R F) where
  abbrev pub default_sf_capacity : R
  default_sf_capacity = x.integer 1000000

  abbrev pub default_sf_fpr : R
  default_sf_fpr = x.millionth

  abbrev pub default_sf_slot : R
  default_sf_slot = x.integer 10

  -- One round of the loop over the settings; a text that is no number panics.
  setting : R → List ℕ → Outcome R
  setting target [] = returns target
  setting target (c ∷ cs) = elim (x.parse (c ∷ cs)) [ none ↦ panics | some p ↦ returns p ]

  -- `NewBloomRing(int(finalSlot), int(finalCapacity), finalFPR)`; a negative number of slots panics.
  make_ring : Option ℕ → Option ℕ → R → Outcome (Option (BloomRing F))
  make_ring (some slot) (some capacity) rate =
      new_bloom_ring f slot capacity rate >>= λ r. returns (some r)
  make_ring _ _ rate = panics

  -- The function that `initSaltfilterOnce` runs.
  unfoldable pub init_saltfilter : Env → Outcome (Option (BloomRing F))
  unfolding setting make_ring
  init_saltfilter env = do
    capacity ← setting default_sf_capacity env.capacity
    fpr ← setting default_sf_fpr env.fpr
    slot ← setting default_sf_slot env.slot
    if x.is_positive capacity
        then make_ring (x.truncate slot) (x.truncate capacity) fpr
        else returns none

  -- `getSaltFilterSingleton`
  unfoldable pub get_salt_filter_singleton : Env → Salts F → Outcome (Salts F)
  get_salt_filter_singleton env s =
      if s.initialized
      then returns s
      else (init_saltfilter env >>= λ r. returns (record { saltfilter = r; initialized = true }))

  -- `TestSalt`
  unfoldable pub test_salt : Env → List ℕ → Salts F → Outcome (Bool × Salts F)
  test_salt env b s = do
    s' ← get_salt_filter_singleton env s
    (seen, r) ← test f b s'.saltfilter
    returns (seen, record s' { saltfilter = r })

  -- `AddSalt`
  unfoldable pub add_salt : Env → List ℕ → Salts F → Outcome (Salts F)
  add_salt env b s = do
    s' ← get_salt_filter_singleton env s
    r ← add f b s'.saltfilter
    returns (record s' { saltfilter = r })

  -- `CheckSalt`: it calls `Test`, not `Check`.
  unfoldable pub check_salt : Env → List ℕ → Salts F → Outcome (Bool × Salts F)
  check_salt env b s = do
    s' ← get_salt_filter_singleton env s
    (seen, r) ← test f b s'.saltfilter
    returns (seen, record s' { saltfilter = r })
