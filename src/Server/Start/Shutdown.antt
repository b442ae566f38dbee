-- ===== src/Server/Start/Shutdown.antt =====
-- The shutdown of m_server/server.go.
use miniproxygo.Common.{subst, ℕ, ◌≡◌, refl, Bool, true, false, Option, none, some, List, [], ◌∷◌}
use miniproxygo.Io.{Error, Result, ok, err}
use miniproxygo.Config.{Conf}
use miniproxygo.Shadow.Cipher.{Crypto}
use miniproxygo.Core.Pick.{StreamCipher}
use miniproxygo.Server.Accept.{Accepted}
use miniproxygo.Server.Start.{
  Listener, Server, Running, init_config, new_server, serve_socks_local, serve_socks_server,
  with_cipher, start, serve, listened,
}

-- `CheckGracefulShutdown`: a closed channel can be read from at once.
unfoldable pub check_graceful_shutdown : Server → Bool
check_graceful_shutdown srv = srv.close_notified

-- What the loop of `ShutdownHandler` wakes up for.
pub data Wake : Type 0 where
  conns_finished shutdown_timeout : Wake

-- How a call of `ShutdownHandler` goes: a panic, a wait, or the end of the process with a status.
pub data Ending : Type 0 where
  panicked waiting : Ending
  exited : ℕ → Ending

pub record Stopping : Type 0 where
  pub server : Server
  pub ending : Ending

-- `closeListeners`: a nil listener panics; an error of `Close` is only logged.
abbrev pub close_listeners : Option Listener → Server → Option Server
close_listeners none srv = none
close_listeners (some l) srv = some (record srv { listener = some (record l { closed = true }) })

-- The loop: it ends at the first event, of either kind.
abbrev pub await_end : List Wake → Ending
await_end [] = waiting
await_end (conns_finished ∷ ws) = exited 0
await_end (shutdown_timeout ∷ ws) = exited 0

-- `ShutdownHandler`. Closing a channel twice panics.
unfoldable pub shutdown_handler : List Wake → Server → Stopping
shutdown_handler events srv =
    let notified = record srv { close_notified = true } in
    elim srv.close_notified [
      | true ↦ record { server = srv; ending = panicked }
      | false ↦ elim (close_listeners srv.listener notified) [
        | none ↦ record { server = notified; ending = panicked }
        | some closed ↦ record { server = closed; ending = await_end events }
      ]
    ]

module _ {Block : Type 0} (crypto : Crypto Block) (md5 : List ℕ → List ℕ)
    (listen : List ℕ → Option Error) (accepts : List Accepted) where
  -- The server holds no listener, and has not been told to shut down.
  abbrev Quiet : Server → Type 0
  Quiet srv = (srv.listener ≡ none) × (srv.close_notified ≡ false)

  listened-Quiet :
      (o : Option Error) (srv : Server) (run : Running)
      → Quiet srv
      → Quiet run.server
      → Quiet (listened crypto md5 listen accepts o srv run).server
  listened-Quiet none srv run h k = k
  listened-Quiet (some e) srv run h k = h

  serve-Quiet :
      (local : Bool) (srv : Server)
      → Quiet srv
      → Quiet (serve crypto md5 listen accepts local srv).server
  unfolding serve_socks_local serve_socks_server
  serve-Quiet true srv h = listened-Quiet (listen srv.addr) srv _ h h
  serve-Quiet false srv h = listened-Quiet (listen srv.addr) srv _ h h

  with_cipher-Quiet :
      (srv : Server) (c : Result StreamCipher) (run : Running)
      → Quiet srv
      → with_cipher crypto md5 listen accepts srv c ≡ ok run
      → Quiet run.server
  with_cipher-Quiet srv (err e) run h ran = cc
  with_cipher-Quiet srv (ok ciph) run h ran =
      subst (λ z. Quiet z.server) (ok_injective ran)
        (serve-Quiet srv.config.server.local (record srv { cipher = some ciph }) h)
    where
      ok_injective : {a b : Running} → ok a ≡ ok b → a ≡ b
      ok_injective e = cc

  -- A server that `Start` has started is not in graceful shutdown. `ShutdownHandler` puts it there
  -- and then panics, whatever its connections do, since no listener has been kept.
  pub shutdown_handler-start :
      (cfg : Conf) (version conf_root : List ℕ) (run : Running) (events : List Wake)
      → start crypto md5 listen accepts cfg version conf_root ≡ ok run
      → (check_graceful_shutdown run.server ≡ false)
        × (check_graceful_shutdown (shutdown_handler events run.server).server ≡ true)
        × ((shutdown_handler events run.server).ending ≡ panicked)
  unfolding start check_graceful_shutdown shutdown_handler new_server init_config
  shutdown_handler-start cfg version conf_root run events ran =
      let (unlistened, unnotified) =
        with_cipher-Quiet (new_server cfg conf_root version) _ run (refl, refl) ran in
      (unnotified, rw (unnotified, unlistened) refl, rw (unnotified, unlistened) refl)
