-- ===== src/Server/Start/Runs.antt =====
-- Runs of m_server/server.go on a concrete configuration.
use miniproxygo.Common.{
  ◌*◌, ◌^◌, ◌≡◌, refl, arith, true, false, none, some, [], ◌∷◌, take, codes, ltb, pos, int64,
  is_positive,
}
use miniproxygo.Io.{ok}
use miniproxygo.Config.{Conf, no_conf}
use miniproxygo.Shadow.Toy.{toy_crypto, toy_hash}
use miniproxygo.Shadow.Cipher.{MetaCipher}
use miniproxygo.Core.Kdf.{derive}
use miniproxygo.Core.Pick.{aead_cipher}
use miniproxygo.Core.Runs.{gcm128, toy_hash-IsHash, old_name}
use miniproxygo.Socks.Strconv.{itoa, digits}
use miniproxygo.Server.Accept.{conn}
use miniproxygo.Server.Start.{Running, new_server, init_config, start}
use miniproxygo.Server.Start.Settings.{new_server_durations, start-derive}
use miniproxygo.Server.Start.Shutdown.{
  check_graceful_shutdown, shutdown_handler, panicked, conns_finished, shutdown_handler-start,
}

abbrev conf : Conf
conf = record {
  server = record (no_conf.server) {
    local = true;
    port = pos 8010;
    cipher = codes "aes-128-gcm";
    password = codes "secret";
    client_read_timeout = pos 60;
    graceful_shutdown_timeout = pos 10;
  };
}

port_in_addr : (new_server conf [] []).addr ≡ codes ":8010"
unfolding new_server init_config itoa digits
port_in_addr = refl

-- One second more than fits: the timeout turns negative, and `relay` does without it.
too_long :
    is_positive
      (new_server
        (record { server = record (conf.server) { client_read_timeout = pos 9223372037 } })
        []
        []).read_timeout
    ≡ false
unfolding new_server init_config int64
too_long = refl

new_server_durations_example :
    ((new_server conf [] []).read_timeout ≡ pos (60 * 10 ^ 9))
    × ((new_server conf [] []).graceful_shutdown_timeout ≡ pos (10 * 10 ^ 9))
    × (is_positive (new_server conf [] []).read_timeout ≡ ltb 0 60)
new_server_durations_example =
    new_server_durations conf [] [] 60 10 refl refl (omega arith) (omega arith)

start-derive_example :
    (run : Running) × (c : MetaCipher) × (start toy_crypto toy_hash
        (λ a. none)
        (conn ∷ [])
        conf
        []
        []
      ≡ ok run)
    × (run.server.cipher ≡ some (aead_cipher c))
    × (c.psk ≡ take 16 (derive toy_hash (codes "password") [] 17))
start-derive_example =
    start-derive toy_crypto toy_hash (λ a. none) (conn ∷ []) conf [] [] gcm128 toy_hash-IsHash refl
      old_name

-- The server behind `Start`, and that it is what `Start` returns.
abbrev started : Running
started =
    (start-derive toy_crypto toy_hash (λ a. none) (conn ∷ []) conf [] [] gcm128 toy_hash-IsHash refl
      old_name).0

has_started : start toy_crypto toy_hash (λ a. none) (conn ∷ []) conf [] [] ≡ ok started
has_started =
    (start-derive toy_crypto toy_hash (λ a. none) (conn ∷ []) conf [] [] gcm128 toy_hash-IsHash refl
      old_name).2

shutdown_handler-start_example :
    (check_graceful_shutdown started.server ≡ false)
    × (check_graceful_shutdown (shutdown_handler (conns_finished ∷ []) started.server).server
        ≡ true)
    × ((shutdown_handler (conns_finished ∷ []) started.server).ending ≡ panicked)
shutdown_handler-start_example =
    shutdown_handler-start toy_crypto toy_hash (λ a. none) (conn ∷ []) conf [] [] started
      (conns_finished ∷ []) has_started
