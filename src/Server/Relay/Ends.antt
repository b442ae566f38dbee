-- ===== src/Server/Relay/Ends.antt =====
-- `relay` of m_server/socks_server.go returns, and with what.
use miniproxygo.Common.{
  ℕ, zero, suc, ◌+◌, ◌<◌, ◌≤◌, ◌≡◌, refl, sym, ap, ◌∙◌, subst, ◌⊎◌, inl, inr, Bool, true, none,
  some, List, [], ◌++◌, append-nil, arith,
}
use miniproxygo.Io.{Error}
use miniproxygo.Server.Relay.{
  Side, copying, ended, Round, Relay, relay_start, up_round, down_round, up_expires, down_expires,
  Step, up_goes_on, down_goes_on, up_times_out, down_times_out, Reach, here, later, relay_error,
  relay_returns,
}
use miniproxygo.Server.Relay.Lossless.{Relaying, Copies, Reach-Relaying}
use miniproxygo.Server.Relay.Sides.{EndsWell}

-- What a copy can still do: the calls of `Read` that it has left, and its end.
abbrev pub weight : Side → ℕ → ℕ
weight copying left = suc left
weight (ended e) left = 0

module _ {L R : Type 0} (copy_up : L → R → Round L R) (copy_down : R → L → Round R L)
    (cost_l : L → ℕ) (cost_r : R → ℕ) (LiveL : L → List ℕ → List ℕ → Type 0)
    (LiveR : R → List ℕ → List ℕ → Type 0) (CU : Copies copy_up cost_l cost_r LiveL LiveR)
    (CD : Copies copy_down cost_r cost_l LiveR LiveL) (read_timeout : ℕ) (dl : Error)
    (bl ol br or : List ℕ) where
  abbrev measure : Relay L R → ℕ
  measure s = weight s.up (cost_l s.left) + weight s.down (cost_r s.right)

  abbrev Good : Relay L R → Type 0
  Good s = Relaying LiveL LiveR read_timeout dl bl ol br or s

  up_round-lt :
      (s : Relay L R)
      → s.up ≡ copying
      → Good s
      → measure (up_round copy_up copy_down read_timeout dl s) < measure s
  unfolding up_round
  up_round-lt s going g =
      let c =
        CU g.left_up (ol ++ g.sent_down) g.left_down (or ++ g.sent_up) s.left s.right g.live_left
          g.live_right in
      rw (going, c.unspent)
        (elim c.verdict [
          | inl (on, less) ↦ rw on (omega (arith, less))
          | inr (off, all) ↦ rw off (omega arith)
        ])

  down_round-lt :
      (s : Relay L R)
      → s.down ≡ copying
      → Good s
      → measure (down_round copy_up copy_down read_timeout dl s) < measure s
  unfolding down_round
  down_round-lt s going g =
      let c =
        CD g.left_down (or ++ g.sent_up) g.left_up (ol ++ g.sent_down) s.right s.left g.live_right
          g.live_left in
      rw (going, c.unspent)
        (elim c.verdict [
          | inl (on, less) ↦ rw on (omega (arith, less))
          | inr (off, all) ↦ rw off (omega arith)
        ])

  Step-lt :
      {s t : Relay L R}
      → Step copy_up copy_down read_timeout dl s t
      → Good s
      → measure t < measure s
  unfolding up_expires down_expires
  Step-lt {s} (up_goes_on going e) g = rw e (up_round-lt s going g)
  Step-lt {s} (down_goes_on going e) g = rw e (down_round-lt s going g)
  Step-lt {s} (up_times_out going set e) g = rw (e, going) (omega arith)
  Step-lt {s} (down_times_out going set e) g = rw (e, going) (omega arith)

  Reach-le :
      (l : L) (r : R) {n : ℕ} {s : Relay L R}
      → LiveL l bl ol
      → LiveR r br or
      → Reach copy_up copy_down read_timeout dl (relay_start l r) n s
      → n + measure s ≤ cost_l l + cost_r r + 2
  Reach-le l r hl hr here = omega arith
  Reach-le l r hl hr (later before st) =
      let g =
        Reach-Relaying copy_up copy_down cost_l cost_r LiveL LiveR CU CD read_timeout dl bl ol br or
          l r hl hr before in
      omega (arith, Reach-le l r hl hr before, Step-lt st g)

  -- What has been copied when `relay` returns: without a read timeout all of both directions, with one
  -- all of one direction at least.
  abbrev pub Complete : ℕ → Relay L R → Type 0
  Complete zero s = LiveL s.left [] (ol ++ br) × LiveR s.right [] (or ++ bl)
  Complete (suc rt) s =
      (rest : List ℕ) × (LiveR s.right rest (or ++ bl) ⊎ LiveL s.left rest (ol ++ br))

  both-Complete :
      (rt : ℕ) (s : Relay L R)
      → LiveL s.left [] (ol ++ br)
      → LiveR s.right [] (or ++ bl)
      → Complete rt s
  both-Complete zero s hl hr = (hl, hr)
  both-Complete (suc rt) s hl hr = ([], inl hr)

  one-Complete :
      (rt : ℕ) (s : Relay L R) (rest : List ℕ)
      → 0 < rt
      → LiveR s.right rest (or ++ bl) ⊎ LiveL s.left rest (ol ++ br)
      → Complete rt s
  one-Complete zero s rest pos h = absurd (omega arith)
  one-Complete (suc rt) s rest pos h = (rest, h)

  all_up : (s : Relay L R) (g : Good s) → g.left_up ≡ [] → LiveR s.right g.left_down (or ++ bl)
  all_up s g none_left =
      subst (λ z. LiveR s.right g.left_down (or ++ z))
        (sym (append-nil g.sent_up) ∙ ap (λ z. g.sent_up ++ z) (sym none_left) ∙ g.up_order)
        g.live_right

  all_down : (s : Relay L R) (g : Good s) → g.left_down ≡ [] → LiveL s.left g.left_up (ol ++ br)
  all_down s g none_left =
      subst (λ z. LiveL s.left g.left_up (ol ++ z))
        (sym (append-nil g.sent_down) ∙ ap (λ z. g.sent_down ++ z) (sym none_left) ∙ g.down_order)
        g.live_left

  -- `relay` has returned nil.
  abbrev pub Returned : (Error → Bool) → Relay L R → Type 0
  Returned is_deadline s = (relay_returns is_deadline s ≡ some none) × Complete read_timeout s

  return_by :
      (is_deadline : Error → Bool) (s : Relay L R) (up down : Side)
      → is_deadline dl ≡ true
      → s.up ≡ up
      → s.down ≡ down
      → (g : Good s) → EndsWell read_timeout dl up g.left_up down
      → EndsWell read_timeout dl down g.left_down up
      → ((t : Relay L R) × Step copy_up copy_down read_timeout dl s t) ⊎ Returned is_deadline s
  unfolding relay_returns relay_error
  return_by is_deadline s copying down d eu ed g wu wd =
      inl (up_round copy_up copy_down read_timeout dl s, up_goes_on eu refl)
  return_by is_deadline s (ended x) copying d eu ed g wu wd =
      inl (down_round copy_up copy_down read_timeout dl s, down_goes_on ed refl)
  return_by is_deadline s (ended none) (ended none) d eu ed g wu wd = inr (
    rw (eu, ed) refl,
    both-Complete read_timeout s (subst (λ z. LiveL s.left z (ol ++ br)) wu (all_down s g wd))
        (subst (λ z. LiveR s.right z (or ++ bl)) wd (all_up s g wu)),
  )
  return_by is_deadline s (ended none) (ended (some e)) d eu ed g wu wd = inr (
    rw (eu, ed, wd.1, d) refl,
    one-Complete read_timeout s g.left_down wd.0 (inl (all_up s g wu)),
  )
  return_by is_deadline s (ended (some e)) (ended none) d eu ed g wu wd = inr (
    rw (eu, ed, wu.1, d) refl,
    one-Complete read_timeout s g.left_up wu.0 (inr (all_down s g wd)),
  )
  return_by is_deadline s (ended (some e)) (ended (some e')) d eu ed g wu wd = cc (wu.2)

  -- `relay` over connections that fail no call, with ways to copy that keep the contract of one, whatever
  -- turns its goroutines take: together they go through at most as many steps as the contract's bounds
  -- on the rounds of the two connections, and two more; and where neither can go on, `relay` returns
  -- nil, with both directions copied whole if there is no read timeout, and with one of them at least if
  -- there is.
  pub relay-Returned :
      (is_deadline : Error → Bool) (l : L) (r : R) (n : ℕ) (s : Relay L R)
      → is_deadline dl ≡ true
      → LiveL l bl ol
      → LiveR r br or
      → Reach copy_up copy_down read_timeout dl (relay_start l r) n s
      → (n ≤ cost_l l + cost_r r + 2)
        × (((t : Relay L R) × Step copy_up copy_down read_timeout dl s t) ⊎ Returned is_deadline s)
  relay-Returned is_deadline l r n s d hl hr reached =
      let g =
        Reach-Relaying copy_up copy_down cost_l cost_r LiveL LiveR CU CD read_timeout dl bl ol br or
          l r hl hr reached in
      (
        omega (arith, Reach-le l r hl hr reached),
        return_by is_deadline s s.up s.down d refl refl g g.up_ends g.down_ends,
      )
