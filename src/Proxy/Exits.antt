-- ===== src/Proxy/Exits.antt =====
-- When `main` of proxy.go ends the process with a status.
use miniproxygo.Common.{
  ℕ, ◌≡◌, ◌≢◌, ◌↔◌, ◌⊎◌, inl, inr, refl, sym, ◌∙◌, Bool, false, Option, none, some, List, codes,
  Option-cases,
}
use miniproxygo.Io.{Error, Result, ok, err}
use miniproxygo.Config.{Conf, fatal, loaded, config_load, set_default_config, no_conf}
use miniproxygo.Server.Start.{Running}
use miniproxygo.Proxy.{Flags, Exit, status, log_switch, after_start, after_load, after_log, main}

module _ (log_init : List ℕ → List ℕ → Bool → Option Error) (join : List ℕ → List ℕ → List ℕ)
    (read : List ℕ → Conf → Conf × Option Error)
    (start : Conf → List ℕ → List ℕ → Result Running) where
  -- The logger's error, and that of reading the file over the defaults.
  abbrev pub log_error : Flags → Option Error
  log_error flags = log_init (log_switch flags) flags.log_path flags.std_out

  abbrev pub file_error : Flags → Option Error
  file_error flags =
      (read (join flags.conf_root (codes "proxy.conf")) (set_default_config no_conf)).1

  after_start-ne-status : (r : Result Running) → after_start log_init join read start r ≢ status 1
  after_start-ne-status (err e) h = cc
  after_start-ne-status (ok run) h = elim (Option-cases run.returned) [
    | inl e ↦ let k = rw e at h in cc (k)
    | inr (z, e) ↦ let k = rw e at h in cc (k)
  ]

  -- What follows the logger, by the error of reading the file.
  abbrev with_file : Flags → Conf → Option Error → Exit
  with_file flags cfg e =
      after_load log_init join read start flags
        (elim e [ some e ↦ fatal e | none ↦ loaded cfg none ])

  with_file-status :
      (flags : Flags) (cfg : Conf) (o : Option Error)
      → (with_file flags cfg o ≡ status 1) ↔ ((e : Error) × (o ≡ some e))
  with_file-status flags cfg none = (λ h. absurd (after_start-ne-status _ h), λ (e, h). cc)
  with_file-status flags cfg (some e) = (λ h. (e, refl), λ h. refl)

  -- Why the process would end with a status behind the flags: the logger, or the file.
  abbrev pub Fails : Option Error → Option Error → Type 0
  Fails logger file = (e : Error) × ((logger ≡ some e) ⊎ (logger ≡ none) × (file ≡ some e))

  after_log-status :
      (flags : Flags) (o : Option Error)
      → (after_log log_init join read start flags o ≡ status 1) ↔ Fails o (file_error flags)
  unfolding config_load
  after_log-status flags (some e) = (λ h. (e, inl refl), λ h. refl)
  after_log-status flags none =
      let cfg = (read (join flags.conf_root (codes "proxy.conf")) (set_default_config no_conf)).0 in
      let w = with_file-status flags cfg (file_error flags) in
      (λ h. let (e, k) = w.0 h in (e, inr (refl, k)), back w.1)
    where
      back :
          ((e : Error) × (file_error flags ≡ some e)
            → after_log log_init join read start flags none ≡ status 1)
          → Fails none (file_error flags)
          → after_log log_init join read start flags none ≡ status 1
      back f (e, inl h) = cc
      back f (e, inr (h, k)) = f (e, k)

  -- Unless it has been asked for help or for verbose information, `main` ends the process with status 1
  -- exactly if the logger cannot be made or the configuration file cannot be read; no error of `Start`
  -- does that, and the flag `-v` changes nothing.
  pub main-status :
      (flags : Flags) (v : Bool)
      → flags.help ≡ false
      → flags.show_verbose ≡ false
      → ((main log_init join read start flags ≡ status 1)
          ↔ Fails (log_error flags) (file_error flags))
        × (main log_init join read start (record flags { show_version = v })
            ≡ main log_init join read start flags)
  unfolding main
  main-status flags v h w =
      let same : main log_init join read start flags
          ≡ after_log log_init join read start flags (log_error flags) =
        rw (h, w) refl in
      let both = after_log-status flags (log_error flags) in
      ((λ k. both.0 (sym same ∙ k), λ k. same ∙ both.1 k), refl)
