-- ===== src/Server/Relay/Sides.antt =====
-- How the two copies of `relay` in m_server/socks_server.go can end beside each other.
use miniproxygo.Common.{
  ℕ, ◌<◌, ◌≡◌, refl, inl, inr, Bool, true, false, Bool-cases, Option, none, some, List, [], ltb,
  ltb→lt,
}
use miniproxygo.Io.{Error}
use miniproxygo.Server.Relay.{Side, copying, ended, deadline_behind}

-- A copy that has ended has copied everything, unless its read has timed out behind the other copy,
-- which then has.
abbrev pub EndsWell : ℕ → Error → Side → List ℕ → Side → Type 0
EndsWell read_timeout dl copying rest other = Unit
EndsWell read_timeout dl (ended none) rest other = rest ≡ []
EndsWell read_timeout dl (ended (some e)) rest other =
    (0 < read_timeout) × (e ≡ dl) × (other ≡ ended none)

-- A deadline is set only by the copy that has ended, and only with a read timeout.
abbrev pub IsSetBy : ℕ → Bool → Side → Type 0
IsSetBy read_timeout false side = Unit
IsSetBy read_timeout true side = (0 < read_timeout) × (e : Option Error) × (side ≡ ended e)

-- The other copy was not cut off by a timeout while this one goes on.
pub still_well :
    (rt : ℕ) (dl : Error) (side : Side) (rest : List ℕ) (mine : Side)
    → mine ≡ copying
    → EndsWell rt dl side rest mine
    → (now : Side) → EndsWell rt dl side rest now
still_well rt dl copying rest mine e h now = tt
still_well rt dl (ended none) rest mine e h now = h
still_well rt dl (ended (some z)) rest mine e h now = cc (h.2)

pub still_set :
    (rt : ℕ) (flag : Bool) (mine : Side)
    → mine ≡ copying
    → IsSetBy rt flag mine
    → (now : Side) → IsSetBy rt flag now
still_set rt false mine e h now = tt
still_set rt true mine e h now = cc (h.2)

-- Which deadline is set behind a copy that has just ended or goes on.
pub now_set :
    (rt : ℕ) (side : Side) (flag : Bool)
    → IsSetBy rt flag side
    → IsSetBy rt (deadline_behind rt side flag) side
now_set rt copying flag h = h
now_set rt (ended e) flag h = elim (Bool-cases (ltb 0 rt)) [
  | inl yes_set ↦ rw yes_set (ltb→lt _ _ yes_set, e, refl)
  | inr not_set ↦ rw not_set h
]

-- A copy whose deadline has passed: the other one has ended, and was not itself cut off.
pub other_ended :
    (read_timeout : ℕ) (dl : Error) (flag : Bool) (mine other : Side) (rest : List ℕ)
    → flag ≡ true
    → mine ≡ copying
    → IsSetBy read_timeout flag other
    → EndsWell read_timeout dl other rest mine
    → (0 < read_timeout) × (other ≡ ended none)
other_ended read_timeout dl true mine copying rest e going (pos, why, set) well = cc
other_ended read_timeout dl true mine (ended none) rest e going set well = (set.0, refl)
other_ended read_timeout dl true mine (ended (some z)) rest e going set (pos, same, done) = cc
other_ended read_timeout dl false mine other rest e going set well = cc
