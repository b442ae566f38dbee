-- ===== src/Server/Relay/Lossless.antt =====
-- `relay` of m_server/socks_server.go loses nothing and adds nothing, whatever the order in which its
-- two goroutines go on.
use miniproxygo.Common.{
  ℕ, ◌<◌, ◌≡◌, refl, sym, ap, ◌∙◌, subst, ◌⊎◌, inl, inr, true, none, some, List, [], ◌++◌,
  append_assoc, append-nil,
}
use miniproxygo.Io.{Error}
use miniproxygo.Server.Relay.{
  copying, ended, Round, Relay, relay_start, up_round, down_round, up_expires, down_expires, Step,
  up_goes_on, down_goes_on, up_times_out, down_times_out, Reach, here, later,
}
use miniproxygo.Server.Relay.Sides.{EndsWell, IsSetBy, still_well, still_set, now_set, other_ended}

-- One round of a copy has moved some bytes from the source to the sink. `cost` bounds the rounds that a
-- connection's input is good for.
pub record Copied {S T : Type 0} (cost : S → ℕ) (cost' : T → ℕ)
    (LiveS : S → List ℕ → List ℕ → Type 0) (LiveT : T → List ℕ → List ℕ → Type 0)
    (bs out bt out' : List ℕ) (s : S) (t : T) (x : Round S T) : Type 0 where
  pub moved : List ℕ
  pub left : List ℕ
  pub in_order : moved ++ left ≡ bs
  pub source : LiveS x.source left out
  pub sink : LiveT x.sink bt (out' ++ moved)
  pub unspent : cost' x.sink ≡ cost' t
  pub verdict : (x.side ≡ copying) × (cost x.source < cost s) ⊎ (x.side ≡ ended none) × (left ≡ [])

-- The contract of a way to copy, between connections that fail no call.
abbrev pub Copies :
    {S T : Type 0}
    → (S → T → Round S T)
    → (S → ℕ)
    → (T → ℕ)
    → (S → List ℕ → List ℕ → Type 0)
    → (T → List ℕ → List ℕ → Type 0)
    → Type 0
Copies {S} {T} copy cost cost' LiveS LiveT =
    (bs out bt out' : List ℕ) (s : S) (t : T)
    → LiveS s bs out
    → LiveT t bt out'
    → Copied cost cost' LiveS LiveT bs out bt out' s t (copy s t)

-- `bl` and `br` are the whole input of the two connections, `ol` and `or` their output before the relay.
pub record Relaying {L R : Type 0} (LiveL : L → List ℕ → List ℕ → Type 0)
    (LiveR : R → List ℕ → List ℕ → Type 0) (read_timeout : ℕ) (dl : Error) (bl ol br or : List ℕ)
    (s : Relay L R) : Type 0 where
  pub sent_up : List ℕ
  pub left_up : List ℕ
  pub sent_down : List ℕ
  pub left_down : List ℕ
  pub up_order : sent_up ++ left_up ≡ bl
  pub down_order : sent_down ++ left_down ≡ br
  pub live_left : LiveL s.left left_up (ol ++ sent_down)
  pub live_right : LiveR s.right left_down (or ++ sent_up)
  pub up_ends : EndsWell read_timeout dl s.up left_up s.down
  pub down_ends : EndsWell read_timeout dl s.down left_down s.up
  pub right_set : IsSetBy read_timeout s.right_deadline s.up
  pub left_set : IsSetBy read_timeout s.left_deadline s.down

module _ {L R : Type 0} (copy_up : L → R → Round L R) (copy_down : R → L → Round R L)
    (cost_l : L → ℕ) (cost_r : R → ℕ) (LiveL : L → List ℕ → List ℕ → Type 0)
    (LiveR : R → List ℕ → List ℕ → Type 0) (CU : Copies copy_up cost_l cost_r LiveL LiveR)
    (CD : Copies copy_down cost_r cost_l LiveR LiveL) (read_timeout : ℕ) (dl : Error)
    (bl ol br or : List ℕ) where
  abbrev Good : Relay L R → Type 0
  Good s = Relaying LiveL LiveR read_timeout dl bl ol br or s

  up_round-Relaying :
      (s : Relay L R)
      → s.up ≡ copying
      → Good s
      → Good (up_round copy_up copy_down read_timeout dl s)
  unfolding up_round
  up_round-Relaying s going g =
      let c =
        CU g.left_up (ol ++ g.sent_down) g.left_down (or ++ g.sent_up) s.left s.right g.live_left
          g.live_right in
      let side = (copy_up s.left s.right).side in
      record {
        sent_up = g.sent_up ++ c.moved;
        left_up = c.left;
        sent_down = g.sent_down;
        left_down = g.left_down;
        up_order =
            append_assoc g.sent_up c.moved c.left
            ∙ ap (λ l. g.sent_up ++ l) c.in_order
            ∙ g.up_order;
        down_order = g.down_order;
        live_left = c.source;
        live_right = subst (LiveR _ g.left_down) (append_assoc or g.sent_up c.moved) c.sink;
        up_ends = elim c.verdict [ inl (on, less) ↦ rw on tt | inr (off, all) ↦ rw off all ];
        down_ends = still_well read_timeout dl s.down g.left_down s.up going g.down_ends side;
        right_set =
            now_set read_timeout side s.right_deadline
              (still_set read_timeout s.right_deadline s.up going g.right_set side);
        left_set = g.left_set;
      }

  down_round-Relaying :
      (s : Relay L R)
      → s.down ≡ copying
      → Good s
      → Good (down_round copy_up copy_down read_timeout dl s)
  unfolding down_round
  down_round-Relaying s going g =
      let c =
        CD g.left_down (or ++ g.sent_up) g.left_up (ol ++ g.sent_down) s.right s.left g.live_right
          g.live_left in
      let side = (copy_down s.right s.left).side in
      record {
        sent_up = g.sent_up;
        left_up = g.left_up;
        sent_down = g.sent_down ++ c.moved;
        left_down = c.left;
        up_order = g.up_order;
        down_order =
            append_assoc g.sent_down c.moved c.left
            ∙ ap (λ l. g.sent_down ++ l) c.in_order
            ∙ g.down_order;
        live_left = subst (LiveL _ g.left_up) (append_assoc ol g.sent_down c.moved) c.sink;
        live_right = c.source;
        up_ends = still_well read_timeout dl s.up g.left_up s.down going g.up_ends side;
        down_ends = elim c.verdict [ inl (on, less) ↦ rw on tt | inr (off, all) ↦ rw off all ];
        right_set = g.right_set;
        left_set =
            now_set read_timeout side s.left_deadline
              (still_set read_timeout s.left_deadline s.down going g.left_set side);
      }

  up_expires-Relaying :
      (s : Relay L R)
      → s.up ≡ copying
      → s.left_deadline ≡ true
      → Good s
      → Good (up_expires copy_up copy_down read_timeout dl s)
  unfolding up_expires
  up_expires-Relaying s going set g = record {
    sent_up = g.sent_up;
    left_up = g.left_up;
    sent_down = g.sent_down;
    left_down = g.left_down;
    up_order = g.up_order;
    down_order = g.down_order;
    live_left = g.live_left;
    live_right = g.live_right;
    up_ends =
        let o =
          other_ended read_timeout dl s.left_deadline s.up s.down g.left_down set going g.left_set
            g.down_ends in
        (o.0, refl, o.1);
    down_ends =
        still_well read_timeout dl s.down g.left_down s.up going g.down_ends (ended (some dl));
    right_set =
        now_set read_timeout (ended (some dl)) s.right_deadline
          (still_set read_timeout s.right_deadline s.up going g.right_set (ended (some dl)));
    left_set = g.left_set;
  }

  down_expires-Relaying :
      (s : Relay L R)
      → s.down ≡ copying
      → s.right_deadline ≡ true
      → Good s
      → Good (down_expires copy_up copy_down read_timeout dl s)
  unfolding down_expires
  down_expires-Relaying s going set g = record {
    sent_up = g.sent_up;
    left_up = g.left_up;
    sent_down = g.sent_down;
    left_down = g.left_down;
    up_order = g.up_order;
    down_order = g.down_order;
    live_left = g.live_left;
    live_right = g.live_right;
    up_ends = still_well read_timeout dl s.up g.left_up s.down going g.up_ends (ended (some dl));
    down_ends =
        let o =
          other_ended read_timeout dl s.right_deadline s.down s.up g.left_up set going g.right_set
            g.up_ends in
        (o.0, refl, o.1);
    right_set = g.right_set;
    left_set =
        now_set read_timeout (ended (some dl)) s.left_deadline
          (still_set read_timeout s.left_deadline s.down going g.left_set (ended (some dl)));
  }

  pub Step-Relaying :
      {s t : Relay L R} → Step copy_up copy_down read_timeout dl s t → Good s → Good t
  Step-Relaying {s} (up_goes_on going e) g = subst Good (sym e) (up_round-Relaying s going g)
  Step-Relaying {s} (down_goes_on going e) g = subst Good (sym e) (down_round-Relaying s going g)
  Step-Relaying {s} (up_times_out going set e) g =
      subst Good (sym e) (up_expires-Relaying s going set g)
  Step-Relaying {s} (down_times_out going set e) g =
      subst Good (sym e) (down_expires-Relaying s going set g)

  pub start-Relaying : (l : L) (r : R) → LiveL l bl ol → LiveR r br or → Good (relay_start l r)
  start-Relaying l r hl hr = record {
    sent_up = [];
    left_up = bl;
    sent_down = [];
    left_down = br;
    up_order = refl;
    down_order = refl;
    live_left = subst (LiveL l bl) (sym (append-nil ol)) hl;
    live_right = subst (LiveR r br) (sym (append-nil or)) hr;
    up_ends = tt;
    down_ends = tt;
    right_set = tt;
    left_set = tt;
  }

  -- In every state that the two goroutines of `relay` can reach together, over connections that fail no
  -- call and with ways to copy that keep the contract of one: what each connection has been given is a
  -- beginning of the other one's input, and the rest of that is still to be read. A copy has ended only
  -- with everything copied, or by the timeout of its read, and then the other one has copied everything;
  -- a deadline is set only if there is a read timeout.
  pub Reach-Relaying :
      (l : L) (r : R) {n : ℕ} {s : Relay L R}
      → LiveL l bl ol
      → LiveR r br or
      → Reach copy_up copy_down read_timeout dl (relay_start l r) n s
      → Relaying LiveL LiveR read_timeout dl bl ol br or s
  Reach-Relaying l r hl hr here = start-Relaying l r hl hr
  Reach-Relaying l r hl hr (later before st) = Step-Relaying st (Reach-Relaying l r hl hr before)
