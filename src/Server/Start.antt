-- ===== src/Server/Start.antt =====
-- m_server/server.go: the server's settings, its start and its shutdown. `net.Listen` and what `Accept`
-- returns are parameters.
pub mod Settings
pub mod Shutdown
mod Runs
use miniproxygo.Common.{
  ℕ, zero, suc, ◌+◌, ◌^◌, ◌*◌, Bool, true, false, Option, none, some, List, [], ◌∷◌, codes,
  if◌then◌else◌, ℤ, pos, negsuc, int64, times, is_zero, is_positive,
}
use miniproxygo.Io.{Error, Result, ok, err}
use miniproxygo.Config.{Conf}
use miniproxygo.Shadow.Cipher.{Crypto}
use miniproxygo.Core.Pick.{StreamCipher, pick_cipher}
use miniproxygo.Socks.Strconv.{itoa}
use miniproxygo.Server.Accept.{Accepted, conn, failed, serve_local, loop_start}

-- `Stats`
pub record Stats : Type 0 where
  pub req_num : ℕ
  pub co_num : ℕ

-- A `net.Listener`: whether it has been closed, and what `Close` returns.
pub record Listener : Type 0 where
  pub closed : Bool
  pub close_err : Option Error

-- `Server`, without the wait group, which the runtime keeps. Durations are in nanoseconds;
-- `close_notified` says that the channel `CloseNotifyCh` has been closed.
pub record Server : Type 0 where
  pub addr : List ℕ
  pub cipher : Option StreamCipher
  pub read_timeout : ℤ
  pub graceful_shutdown_timeout : ℤ
  pub close_notified : Bool
  pub listener : Option Listener
  pub config : Conf
  pub conf_root : List ℕ
  pub stats : Stats
  pub version : List ℕ

-- `fmt.Sprintf("%d", n)`
abbrev pub decimal : ℤ → List ℕ
decimal (pos n) = itoa n
decimal (negsuc n) = b'-' ∷ itoa (suc n)

-- `time.Duration(n) * time.Second`
abbrev pub seconds : ℤ → ℤ
seconds n = int64 (times n (10 ^ 9))

-- `InitConfig`
unfoldable pub init_config : Server → Server
init_config srv =
    let conf = srv.config.server in
    record srv {
      addr = b':' ∷ decimal conf.port;
      read_timeout =
          if is_zero conf.client_read_timeout
          then srv.read_timeout
          else seconds conf.client_read_timeout;
      graceful_shutdown_timeout = seconds conf.graceful_shutdown_timeout;
    }

-- `new(Server)` with the configuration in it.
abbrev pub blank_server : Conf → List ℕ → Server
blank_server cfg conf_root = record {
  addr = [];
  cipher = none;
  read_timeout = pos 0;
  graceful_shutdown_timeout = pos 0;
  close_notified = false;
  listener = none;
  config = cfg;
  conf_root = conf_root;
  stats = record { req_num = 0; co_num = 0 };
  version = [];
}

-- `NewServer`
unfoldable pub new_server : Conf → List ℕ → List ℕ → Server
unfolding init_config
new_server cfg conf_root version = record (init_config (blank_server cfg conf_root)) {
  version = version;
}

-- The loop of `ServeServer`: it goes on after every error, so that only the number `ReqNum` is left.
unfoldable pub serve_server : List Accepted → ℕ → ℕ
serve_server [] req_num = req_num
serve_server (conn ∷ xs) req_num = serve_server xs (req_num + 1)
serve_server (failed e kind ∷ xs) req_num = serve_server xs req_num

-- A server that runs, and what the function that serves has returned, if it has.
pub record Running : Type 0 where
  pub server : Server
  pub returned : Option Error

abbrev pub accept_error : Option ℕ → Option Error
accept_error none = none
accept_error (some e) = some (Error.network e)

module _ {Block : Type 0} (crypto : Crypto Block) (md5 : List ℕ → List ℕ)
    (listen : List ℕ → Option Error) (accepts : List Accepted) where
  -- An error of `net.Listen` is returned.
  abbrev pub listened : Option Error → Server → Running → Running
  listened (some e) srv run = record { server = srv; returned = some e }
  listened none srv run = run

  -- `ServeSocksLocal`
  unfoldable pub serve_socks_local : Server → Running
  serve_socks_local srv =
      let loop =
        serve_local srv.close_notified srv.config.server.graceful_shutdown_timeout accepts
          loop_start in
      listened (listen srv.addr) srv (record {
        server = record srv {
          stats = record (srv.stats) { req_num = srv.stats.req_num + loop.req_num };
        };
        returned = accept_error loop.returned;
      })

  -- `ServeSocksServer`
  unfoldable pub serve_socks_server : Server → Running
  serve_socks_server srv = listened (listen srv.addr) srv (record {
    server = record srv {
      stats = record (srv.stats) { req_num = serve_server accepts srv.stats.req_num };
    };
    returned = none;
  })

  -- The `if s.Config.Server.Local`.
  abbrev pub serve : Bool → Server → Running
  serve true srv = serve_socks_local srv
  serve false srv = serve_socks_server srv

  abbrev pub with_cipher : Server → Result StreamCipher → Result Running
  with_cipher srv (err e) = err e
  with_cipher srv (ok ciph) =
      let ready = record srv { cipher = some ciph } in ok (serve srv.config.server.local ready)

  -- `Start`, with the channel between its goroutine and itself: it returns what the goroutine sends.
  unfoldable pub start : Conf → List ℕ → List ℕ → Result Running
  start cfg version conf_root =
      let srv = new_server cfg conf_root version in
      with_cipher srv (pick_cipher crypto md5 srv.config.server.cipher [] (codes "password"))
