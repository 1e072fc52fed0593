-- ===== src/Logger.antt =====
-- logger/logging.go: where the log goes and which calls write to it. The levels and the directory of
-- sentinel-golang and zap's logger are parameters.
use aliyun_ahas.Common.{
  ℕ, Text, lit, is_empty, [], ◌∷◌, ◌++◌, Bool, true, false, ◌||◌, Option, none, some, ltb, ◌==◌,
  ◌≡◌, ◌≢◌, ◌↔◌, ◌≤◌, refl, if◌then◌else◌, arith,
}

-- `logging.Level` of sentinel-golang, with a number for one outside its constants.
pub data Level : Type 0 where
  debug_level : Level
  info_level : Level
  warn_level : Level
  error_level : Level
  fatal_level : Level
  panic_level : Level
  level_of : ℕ → Level

-- `zapcore.Level`
pub data ZapLevel : Type 0 where
  zap_debug : ZapLevel
  zap_info : ZapLevel
  zap_warn : ZapLevel
  zap_error : ZapLevel
  zap_panic : ZapLevel
  zap_fatal : ZapLevel

-- `toZapLevel`
unfoldable pub to_zap_level : Level → ZapLevel
to_zap_level error_level = zap_error
to_zap_level info_level = zap_info
to_zap_level debug_level = zap_debug
to_zap_level warn_level = zap_warn
to_zap_level panic_level = zap_panic
to_zap_level fatal_level = zap_fatal
to_zap_level (level_of n) = zap_info

-- `addSeparatorIfNeeded`, for the separator '/'.
abbrev pub ends_with_separator : Text → Bool
ends_with_separator [] = false
ends_with_separator (c ∷ []) = c == b'/'
ends_with_separator (c ∷ d ∷ s) = ends_with_separator (d ∷ s)

unfoldable pub add_separator_if_needed : Text → Text
add_separator_if_needed path = if ends_with_separator path then path else path ++ lit "/"

-- `ahasLogger`: the first one, that `init` makes, or one that writes to a file from a level on.
pub data Logger : Type 0 where
  production : Logger
  to_file : Text → ZapLevel → Logger

-- `InitLoggerDefault`, for `LogBaseDir` and the global level.
unfoldable pub init_logger_default : Text → Level → Option Logger → Option Logger
init_logger_default log_dir level logger =
    if is_empty log_dir
    then logger
    else some (to_file (add_separator_if_needed log_dir ++ lit "ahas.log") (to_zap_level level))

-- The functions that log, and `Fatal` and `Panic`, each with its twin for a format.
pub data LogCall : Type 0 where
  debug : LogCall
  debugf : LogCall
  info : LogCall
  infof : LogCall
  warn : LogCall
  warnf : LogCall
  error : LogCall
  errorf : LogCall
  fatal : LogCall
  fatalf : LogCall
  panic : LogCall
  panicf : LogCall

unfoldable pub level_of_call : LogCall → Level
level_of_call debug = debug_level
level_of_call debugf = debug_level
level_of_call info = info_level
level_of_call infof = info_level
level_of_call warn = warn_level
level_of_call warnf = warn_level
level_of_call error = error_level
level_of_call errorf = error_level
level_of_call fatal = fatal_level
level_of_call fatalf = fatal_level
level_of_call panic = panic_level
level_of_call panicf = panic_level

-- Whether a call reaches the logger: `rank` is the number of a level, `global` that of the global level.
unfoldable pub is_passed_on : (Level → ℕ) → ℕ → Option Logger → LogCall → Bool
is_passed_on rank global logger call =
    if ltb (rank (level_of_call call)) global || elim logger [ none ↦ true | some l ↦ false ]
    then false
    else true

ends_with_separator-append : (s : Text) → ends_with_separator (s ++ lit "/") ≡ true
ends_with_separator-append [] = refl
ends_with_separator-append (c ∷ []) = refl
ends_with_separator-append (c ∷ d ∷ s) = ends_with_separator-append (d ∷ s)

-- The log goes to ahas.log behind exactly one separator, which is added where the directory has none at its end, at
-- the level of zap that has the global level's name; without a directory the logger stays as it was. A call is
-- passed on exactly if there is a logger and its level is not below the global one.
pub init_logger_default-is_passed_on :
    (rank : Level → ℕ) (global : ℕ) (log_dir : Text) (level : Level) (logger : Option Logger)
    (call : LogCall)
    → let logger' = init_logger_default log_dir level logger in
      let dir = add_separator_if_needed log_dir in
      (ends_with_separator dir ≡ true)
      × (add_separator_if_needed dir ≡ dir)
      × (logger' ≡ (
          if is_empty log_dir
          then logger
          else some (to_file (dir ++ lit "ahas.log") (to_zap_level level))))
      × ((is_passed_on rank global logger' call ≡ true)
          ↔ ((global ≤ rank (level_of_call call)) × (logger' ≢ none)))
unfolding init_logger_default add_separator_if_needed is_passed_on
init_logger_default-is_passed_on rank global log_dir level logger call =
    let ended = ends_with_separator-append log_dir in
    (ground arith, ground arith, ground arith, (λ e. ground arith, λ h. ground arith))
