-- ===== src/Proxy/Runs.antt =====
-- `main` with a configuration file that cannot be read.
use miniproxygo.Common.{ℕ, ◌≡◌, ◌↔◌, refl, Bool, true, false, Option, none, some, List, ◌++◌, codes}
use miniproxygo.Io.{Error, Result, err}
use miniproxygo.Config.{Conf}
use miniproxygo.Server.Start.{Running}
use miniproxygo.Proxy.{Flags, status, main}
use miniproxygo.Proxy.Exits.{Fails, log_error, file_error, main-status}

abbrev flags : Flags
flags = record {
  help = false;
  conf_root = codes "./conf";
  log_path = codes "./log";
  std_out = false;
  show_version = false;
  show_verbose = false;
  debug_log = true;
}

abbrev log_init : List ℕ → List ℕ → Bool → Option Error
log_init switch path std_out = none

abbrev join : List ℕ → List ℕ → List ℕ
join root name = root ++ (codes "/" ++ name)

abbrev read : List ℕ → Conf → Conf × Option Error
read path conf = (conf, some (Error.network 2))

abbrev start : Conf → List ℕ → List ℕ → Result Running
start conf version root = err Error.cipher_not_supported

main-status_example :
    ((main log_init join read start flags ≡ status 1)
      ↔ Fails log_init join read start
          (log_error log_init join read start flags)
          (file_error log_init join read start flags))
    × (main log_init join read start (record flags { show_version = true })
        ≡ main log_init join read start flags)
main-status_example = main-status log_init join read start flags true refl refl
