-- ===== src/Config.antt =====
-- m_config/config.go: the settings, their defaults, and reading them from a file. The library that reads
-- the file (gcfg) is a parameter.
use miniproxygo.Common.{ℕ, Bool, false, Option, none, some, List, [], ℤ, pos}
use miniproxygo.Io.{Error}

-- `ConfigServer`
pub record ConfigServer : Type 0 where
  pub local : Bool
  pub port : ℤ
  pub remote_server : List ℕ
  pub monitor_port : ℤ
  pub cipher : List ℕ
  pub username : List ℕ
  pub password : List ℕ
  pub client_read_timeout : ℤ
  pub client_write_timeout : ℤ
  pub graceful_shutdown_timeout : ℤ
  pub max_idle : ℤ
  pub max_cpus : ℤ

-- `Conf`
pub record Conf : Type 0 where
  pub server : ConfigServer

-- The zero value of `Conf`.
abbrev pub no_conf : Conf
no_conf = record {
  server = record {
    local = false;
    port = pos 0;
    remote_server = [];
    monitor_port = pos 0;
    cipher = [];
    username = [];
    password = [];
    client_read_timeout = pos 0;
    client_write_timeout = pos 0;
    graceful_shutdown_timeout = pos 0;
    max_idle = pos 0;
    max_cpus = pos 0;
  };
}

-- `ConfigServer.SetDefaultConfig`
unfoldable pub set_server_defaults : ConfigServer → ConfigServer
set_server_defaults cfg = record cfg {
  client_read_timeout = pos 60;
  client_write_timeout = pos 60;
  graceful_shutdown_timeout = pos 10;
}

-- `SetDefaultConfig`
unfoldable pub set_default_config : Conf → Conf
unfolding set_server_defaults
set_default_config conf = record conf { server = set_server_defaults conf.server }

-- What `ConfigLoad` comes to: `log.Fatalf` ends the process, or it returns.
pub data Loaded : Type 0 where
  fatal : Error → Loaded
  loaded : Conf → Option Error → Loaded

-- `ConfigLoad`; `read path conf` is `gcfg.ReadFileInto(&conf, path)`, with what it leaves in `conf`.
unfoldable pub config_load : (List ℕ → Conf → Conf × Option Error) → List ℕ → (Conf → Conf) → Loaded
config_load read path f =
    let (cfg, e) = read path (f no_conf) in elim e [ some e ↦ fatal e | none ↦ loaded cfg none ]
