-- ===== src/Server/Relay/Whole.antt =====
-- `io.Copy` of m_server/socks_server.go as its rounds one after the other.
use miniproxygo.Common.{ℕ, suc, ◌≡◌, ap, Option}
use miniproxygo.Io.{Error}
use miniproxygo.Server.Relay.{copying, ended, Round, copy_all}

module _ {S T : Type 0} (copy : S → T → Round S T) where
  -- What follows the first round.
  abbrev go_on : ℕ → Round S T → Round S T
  go_on n y = elim y.side [ copying ↦ copy_all copy n y.source y.sink | ended e ↦ y ]

  pub later :
      (n : ℕ) (s s' : S) (t t' : T)
      → copy s t ≡ record { side = copying; source = s'; sink = t' }
      → copy_all copy (suc n) s t ≡ copy_all copy n s' t'
  unfolding copy_all
  later n s s' t t' e = ap (go_on n) e

  pub last :
      (n : ℕ) (s s' : S) (t t' : T) (w : Option Error)
      → copy s t ≡ record { side = ended w; source = s'; sink = t' }
      → copy_all copy (suc n) s t ≡ record { side = ended w; source = s'; sink = t' }
  unfolding copy_all
  last n s s' t t' w e = ap (go_on n) e

  pub same_start :
      (n : ℕ) (s s' : S) (t t' : T)
      → copy s t ≡ copy s' t'
      → copy_all copy (suc n) s t ≡ copy_all copy (suc n) s' t'
  unfolding copy_all
  same_start n s s' t t' e = ap (go_on n) e
