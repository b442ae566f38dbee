-- ===== src/Internal/SaltFilter/Singleton.antt =====
-- The salt filter is made once, and its ring stays well formed.
use miniproxygo.Common.{
  ℕ, ◌≡◌, refl, sym, ap, ◌∙◌, subst, Bool-cases, inl, inr, Option, Bool, none, some, List, true,
  false, arith,
}
use miniproxygo.Internal.Outcome.{◌>>=◌, returns, >>=-returns}
use miniproxygo.Internal.Filter.{Filter, IsFilter}
use miniproxygo.Internal.BloomRing.{BloomRing, add, test, add_entry, new_bloom_ring}
use miniproxygo.Internal.BloomRing.Locking.{test_same, pair_back}
use miniproxygo.Internal.BloomRing.Window.{
  IsRing, add-eq, test-eq, add_entry-IsRing, test_slots-add_entry, new_bloom_ring_sound,
  returns_injective,
}
use miniproxygo.Internal.SaltFilter.{
  default_sf_capacity, default_sf_fpr, default_sf_slot, Floats, Env, Salts, setting, make_ring,
  init_saltfilter, get_salt_filter_singleton, add_salt, check_salt,
}

-- The filter is switched off, or its ring is well formed and free.
abbrev pub Sound : {F : Type 0} → Option (BloomRing F) → Type 0
Sound none = Unit
Sound (some r) = IsRing r

module _ {R F : Type 0} (x : Floats R) (f : Filter R F) where
  -- The salt filter is made by the first call alone: every later call returns the same filter,
  -- whatever has become of the environment.
  pub get_salt_filter_singleton_once :
      (env env' : Env) (s s' : Salts F)
      → get_salt_filter_singleton x f env s ≡ returns s'
      → get_salt_filter_singleton x f env' s' ≡ returns s'
  unfolding get_salt_filter_singleton
  get_salt_filter_singleton_once env env' s s' e = ground arith

  -- A check records nothing: checked once more, a salt gets the answer of the first time.
  pub check_salt_again :
      (env env' : Env) (b : List ℕ) (s s' : Salts F) (seen : Bool)
      → check_salt x f env b s ≡ returns (seen, s')
      → check_salt x f env' b s' ≡ returns (seen, s')
  unfolding check_salt get_salt_filter_singleton
  check_salt_again env env' b s s' seen e =
      let (s1, got, e1) = >>=-returns (get_salt_filter_singleton x f env s) _ (seen, s') e in
      let (y, tested, e2) = >>=-returns (test f b s1.saltfilter) _ (seen, s') e1 in
      let same : s1.saltfilter ≡ y.1 = test_same f b s1.saltfilter y.1 y.0 tested in
      let unchanged : s1 ≡ s' = ap (λ q. record s1 { saltfilter = q }) same ∙ pair_back e2 in
      subst (λ z. check_salt x f env' b z ≡ returns (seen, s')) unchanged
        (ap
            (λ m. m >>= λ z.
              test f b z.saltfilter >>= λ y. returns (y.0, record z { saltfilter = y.1 }))
            (get_salt_filter_singleton_once env env' s s1 got)
          ∙ ap (λ m. m >>= λ y. returns (y.0, record s1 { saltfilter = y.1 })) tested
          ∙ e2)

  -- With the filter switched off nothing is recorded and nothing is reported.
  pub salts_off :
      (env env' : Env) (b c : List ℕ) (s : Salts F)
      → s.initialized ≡ true
      → s.saltfilter ≡ none
      → (add_salt x f env b s ≡ returns s) × (check_salt x f env' c s ≡ returns (false, s))
  unfolding add_salt check_salt get_salt_filter_singleton add test
  salts_off env env' b c s on off = (ground arith, ground arith)

module _ {R F : Type 0} (x : Floats R) (f : Filter R F) (laws : IsFilter f) where
  make_ring-Sound :
      (slot capacity : Option ℕ) (rate : R) (p : Option (BloomRing F))
      → make_ring x f slot capacity rate ≡ returns p
      → Sound p
  unfolding make_ring
  make_ring-Sound (some slot) (some capacity) rate none e = tt
  make_ring-Sound (some slot) (some capacity) rate (some r) e =
      let (made, went, same) =
        >>=-returns (new_bloom_ring f slot capacity rate) (λ r'. returns (some r')) (some r) e in
      new_bloom_ring_sound f laws slot capacity rate r (went ∙ cc)
  make_ring-Sound (some slot) none rate p e = cc
  make_ring-Sound none (some capacity) rate p e = cc
  make_ring-Sound none none rate p e = cc

  -- Whatever the environment says, a filter that gets made is well formed.
  init-Sound :
      (env : Env) (p : Option (BloomRing F)) → init_saltfilter x f env ≡ returns p → Sound p
  unfolding init_saltfilter
  init-Sound env p e =
      let (capacity, e1, k1) =
        >>=-returns (setting x f (default_sf_capacity x f) env.capacity) _ p e in
      let (fpr, e2, k2) = >>=-returns (setting x f (default_sf_fpr x f) env.fpr) _ p k1 in
      let (slot, e3, k3) = >>=-returns (setting x f (default_sf_slot x f) env.slot) _ p k2 in
      elim (Bool-cases (x.is_positive capacity)) [
        | inl on ↦ make_ring-Sound (x.truncate slot) (x.truncate capacity) fpr p (rw on at k3)
        | inr off ↦ switched_off p (rw off at k3)
      ]
    where
      switched_off : (q : Option (BloomRing F)) → returns none ≡ returns q → Sound q
      switched_off none h = tt
      switched_off (some r) h = cc

  -- A state of the two variables from which the program can go on.
  abbrev pub IsSound : Salts F → Type 0
  IsSound s = Sound s.saltfilter

  get_salt_filter_singleton-IsSound :
      (env : Env) (s s' : Salts F)
      → IsSound s
      → get_salt_filter_singleton x f env s ≡ returns s'
      → IsSound s'
  unfolding get_salt_filter_singleton
  get_salt_filter_singleton-IsSound env s s' v e = elim (Bool-cases s.initialized) [
    | inl done ↦
        subst IsSound
          (returns_injective (record { saltfilter = s.saltfilter; initialized = true }) s'
            (rw done at e))
          v
    | inr first ↦
        let (p, went, same) =
          >>=-returns (init_saltfilter x f env)
            (λ r. returns (record { saltfilter = r; initialized = true })) s' (rw first at e) in
        subst IsSound (returns_injective (record { saltfilter = p; initialized = true }) s' same)
          (init-Sound env p went)
  ]

  add-Sound :
      (b : List ℕ) (p : Option (BloomRing F))
      → Sound p
      → (q : Option (BloomRing F)) × (add f b p ≡ returns q) × Sound q
  add-Sound b none v = (none, unfold add in refl, tt)
  add-Sound b (some r) v = (some (add_entry f b r), add-eq f b r v, add_entry-IsRing f b r v)

  -- Once the filter has been made, `AddSalt` returns and keeps it sound.
  pub add_salt_returns :
      (env : Env) (b : List ℕ) (s : Salts F)
      → s.initialized ≡ true
      → IsSound s
      → (s' : Salts F) × (add_salt x f env b s ≡ returns s') × IsSound s' × (s'.initialized ≡ true)
  unfolding add_salt get_salt_filter_singleton
  add_salt_returns env b s on v =
      let (q, went, v') = add-Sound b s.saltfilter v in
      (record s { saltfilter = q }, rw on (rw went refl), v', on)

  -- A salt that the process has added, with the filter switched on, is reported by the next check.
  pub check_salt-add_salt :
      (env env' : Env) (b : List ℕ) (r : BloomRing F) (s s' : Salts F)
      → s.initialized ≡ true
      → s.saltfilter ≡ some r
      → IsSound s
      → add_salt x f env b s ≡ returns s'
      → check_salt x f env' b s' ≡ returns (true, s')
  check_salt-add_salt env env' b r s s' on ring v e =
      let valid : IsRing r = subst Sound ring v in
      let after : Salts F = record { saltfilter = some (add_entry f b r); initialized = true } in
      let went : add_salt x f env b s ≡ returns after =
        unfold add_salt get_salt_filter_singleton in rw (on, ring) (rw (add-eq f b r valid) refl) in
      let same : after ≡ s' = returns_injective after s' (sym went ∙ e) in
      subst (λ z. check_salt x f env' b z ≡ returns (true, z)) same
        (unfold check_salt get_salt_filter_singleton in
          rw (test-eq f b (add_entry f b r) (add_entry-IsRing f b r valid))
            (ap (λ seen. returns (seen, after)) (test_slots-add_entry f laws b r valid)))
