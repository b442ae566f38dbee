-- ===== src/Proxy.antt =====
-- proxy.go: the program's flags and `main`. What the flags, the logger, the configuration file and the
-- server come to are parameters; the messages are left out.
pub mod Exits
mod Runs
use miniproxygo.Common.{ℕ, Bool, true, false, Option, none, some, List, [], codes, if◌then◌else◌}
use miniproxygo.Io.{Error, Result, ok, err}
use miniproxygo.Config.{Conf, Loaded, fatal, loaded, config_load, set_default_config}
use miniproxygo.Server.Start.{Running}

-- The variables of the flags.
pub record Flags : Type 0 where
  pub help : Bool
  pub conf_root : List ℕ
  pub log_path : List ℕ
  pub std_out : Bool
  pub show_version : Bool
  pub show_verbose : Bool
  pub debug_log : Bool

-- `version`
abbrev pub version : List ℕ
version = codes "0.1"

-- How `main` goes: it returns, the process ends with a status (in `log.Fatalf` or in `AbnormalExit`), or
-- the server has been started and has not returned.
pub data Exit : Type 0 where
  printed_help printed_verbose served still_serving : Exit
  status : ℕ → Exit

-- The arguments of `log.Init` that depend on the flags.
abbrev pub log_switch : Flags → List ℕ
log_switch flags = if flags.debug_log then codes "DEBUG" else codes "INFO"

module _ (log_init : List ℕ → List ℕ → Bool → Option Error) (join : List ℕ → List ℕ → List ℕ)
    (read : List ℕ → Conf → Conf × Option Error)
    (start : Conf → List ℕ → List ℕ → Result Running) where
  -- The end of `main`: an error of `Start` is logged.
  abbrev pub after_start : Result Running → Exit
  after_start (err e) = served
  after_start (ok run) = elim run.returned [ none ↦ still_serving | some e ↦ served ]

  abbrev pub after_load : Flags → Loaded → Exit
  after_load flags (fatal e) = status 1
  after_load flags (loaded config (some e)) = status 1
  after_load flags (loaded config none) = after_start (start config version flags.conf_root)

  abbrev pub after_log : Flags → Option Error → Exit
  after_log flags (some e) = status 1
  after_log flags none =
      after_load flags
        (config_load read (join flags.conf_root (codes "proxy.conf")) set_default_config)

  -- `main`
  unfoldable pub main : Flags → Exit
  main flags =
      if flags.help
      then printed_help
      else if flags.show_verbose
      then printed_verbose
      else after_log flags (log_init (log_switch flags) flags.log_path flags.std_out)
