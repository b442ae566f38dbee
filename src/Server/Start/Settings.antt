-- ===== src/Server/Start/Settings.antt =====
-- The settings of m_server/server.go: the timeouts, and the cipher that a started server runs with.
use miniproxygo.Common.{
  ℕ, suc, ◌*◌, ◌^◌, ◌≤◌, ◌≡◌, refl, ap, ◌∙◌, Bool, true, false, Bool-cases, inl, inr, Option, none,
  some, List, [], take, codes, same_text, to_upper, ltb, if◌then◌else◌, ◌==◌, ==_iff, pos,
  is_positive, int64_small, is_zero, arith,
}
use miniproxygo.Io.{Error, ok}
use miniproxygo.Config.{Conf}
use miniproxygo.Shadow.Cipher.{Crypto, MetaCipher}
use miniproxygo.Core.Kdf.{IsHash, derive}
use miniproxygo.Core.Pick.{Choice, aead_cipher, aead_list, full_name, pick_cipher-derive}
use miniproxygo.Server.Accept.{Accepted}
use miniproxygo.Server.Start.{
  Server, Running, init_config, new_server, seconds, listened, serve, serve_socks_local,
  serve_socks_server, with_cipher, start,
}

seconds_small : (n : ℕ) → n ≤ 9223372036 → seconds (pos n) ≡ pos (n * 10 ^ 9)
seconds_small n h = int64_small (n * 10 ^ 9) (omega arith)

-- Timeouts of at most 9223372036 seconds, which are not negative, are kept exactly by `NewServer`, in
-- nanoseconds; the read timeout is above 0, so that `relay` uses it, exactly if it is set to more.
pub new_server_durations :
    (cfg : Conf) (conf_root version : List ℕ) (r g : ℕ)
    → cfg.server.client_read_timeout ≡ pos r
    → cfg.server.graceful_shutdown_timeout ≡ pos g
    → r ≤ 9223372036
    → g ≤ 9223372036
    → ((new_server cfg conf_root version).read_timeout ≡ pos (r * 10 ^ 9))
      × ((new_server cfg conf_root version).graceful_shutdown_timeout ≡ pos (g * 10 ^ 9))
      × (is_positive (new_server cfg conf_root version).read_timeout ≡ ltb 0 r)
unfolding new_server init_config
new_server_durations cfg conf_root version r g er eg hr hg =
    let exact : (if is_zero cfg.server.client_read_timeout
          then pos 0
          else seconds cfg.server.client_read_timeout)
        ≡ pos (r * 10 ^ 9) =
      ap (λ z. if is_zero z then pos 0 else seconds z) er ∙ by_zero r hr in
    (exact, ap seconds eg ∙ seconds_small g hg, ap is_positive exact ∙ scaled r)
  where
    by_zero :
        (r : ℕ) → r ≤ 9223372036 → (if r == 0 then pos 0 else seconds (pos r)) ≡ pos (r * 10 ^ 9)
    by_zero r h = elim (Bool-cases (r == 0)) [
      | inl nothing ↦ rw nothing (ap pos (omega (arith, (==_iff r 0).0 nothing)))
      | inr more ↦ rw more (seconds_small r h)
    ]

    scaled : (r : ℕ) → ltb 0 (r * 10 ^ 9) ≡ ltb 0 r
    scaled r = ground arith

module _ {Block : Type 0} (crypto : Crypto Block) (md5 : List ℕ → List ℕ)
    (listen : List ℕ → Option Error) (accepts : List Accepted) where
  listened-cipher :
      (o : Option Error) (srv : Server) (run : Running)
      → run.server.cipher ≡ srv.cipher
      → (listened crypto md5 listen accepts o srv run).server.cipher ≡ srv.cipher
  listened-cipher none srv run h = h
  listened-cipher (some e) srv run h = refl

  serve-cipher :
      (local : Bool) (srv : Server)
      → (serve crypto md5 listen accepts local srv).server.cipher ≡ srv.cipher
  unfolding serve_socks_local serve_socks_server
  serve-cipher true srv = listened-cipher (listen srv.addr) srv _ refl
  serve-cipher false srv = listened-cipher (listen srv.addr) srv _ refl

  -- With an AEAD cipher's name in the configuration, `Start` gets as far as serving, in either half,
  -- with a key that depends on nothing in the configuration but the cipher's name: it is derived from
  -- the word `password`, whatever password the configuration has.
  pub start-derive :
      (cfg : Conf) (version conf_root : List ℕ) (choice : Choice)
      → IsHash md5
      → same_text (to_upper cfg.server.cipher) (codes "DUMMY") ≡ false
      → aead_list crypto md5 (full_name (to_upper cfg.server.cipher)) ≡ some choice
      → (run : Running) × (c : MetaCipher) × (start crypto md5 listen accepts cfg version conf_root
          ≡ ok run)
        × (run.server.cipher ≡ some (aead_cipher c))
        × (c.psk ≡ take choice.key_size (derive md5 (codes "password") [] (suc choice.key_size)))
  unfolding start new_server init_config
  start-derive cfg version conf_root choice hash named found =
      let (c, picked, key, sized) =
        pick_cipher-derive crypto md5 hash cfg.server.cipher (codes "password") choice named
          found in
      let ready = record (new_server cfg conf_root version) { cipher = some (aead_cipher c) } in
      (
        serve crypto md5 listen accepts cfg.server.local ready,
        c,
        ap (with_cipher crypto md5 listen accepts (new_server cfg conf_root version)) picked,
        serve-cipher cfg.server.local ready,
        key,
      )
