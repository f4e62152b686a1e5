-- ===== src/Console.antt =====
-- logger.go: what a process prints, and what it writes to its log. The time stamps of the log are
-- left out; `fmt` has made a text of the arguments before the functions get it.
pub mod Printing
pub mod Files
use hydfs.Prelude.{
  ℕ, Text, codes, Option, none, some, List, [], ◌∷◌, ◌++◌, Bool, true, false, ◌==◌, if◌then◌else◌,
}

-- All that was printed, and the entries of the log, if `globalLogger` is set.
pub record Console : Type 0 where
  pub terminal : Text
  pub entries : Option (List Text)

-- `log.Logger` ends an entry with a newline if it has none.
unfoldable pub terminated : Text → Text
terminated [] = 10 ∷ []
terminated (c ∷ []) = if c == 10 then c ∷ [] else c ∷ 10 ∷ []
terminated (c ∷ d ∷ text) = c ∷ terminated (d ∷ text)

unfoldable pub logged : Text → Option (List Text) → Option (List Text)
unfolding terminated
logged text none = none
logged text (some entries) = some (entries ++ terminated text ∷ [])

-- `LogInfo` and `LogError`
unfoldable pub log_info : Bool → Text → Console → Console
unfolding terminated logged
log_info enable text c =
    if enable then record c { entries = logged (codes "[INFO] " ++ text) c.entries } else c

unfoldable pub log_error : Bool → Text → Console → Console
unfolding terminated logged
log_error enable text c =
    if enable then record c { entries = logged (codes "[ERROR] " ++ text) c.entries } else c

-- `LogPrintln`, of one text
unfoldable pub log_println : Text → Console → Console
unfolding terminated logged
log_println text c = record c { entries = logged text c.entries }

-- `ConsolePrintf`
unfoldable pub console_printf : Text → Console → Console
unfolding log_info
console_printf text c = log_info true text (record c { terminal = c.terminal ++ text })

-- `ConsolePrintln`, of one text without a percent sign: the log takes the text as a format.
unfoldable pub console_println : Text → Console → Console
unfolding log_info
console_println text c =
    log_info true (text ++ 10 ∷ []) (record c { terminal = c.terminal ++ (text ++ 10 ∷ []) })

-- `InitializeLogger`: does `os.MkdirAll` succeed, and does the file open, and with which entries?
-- False is an error.
unfoldable pub initialize_logger : Bool → Option (List Text) → Console → Console × Bool
initialize_logger makes_directory none c = (c, false)
initialize_logger makes_directory (some entries) c =
    if makes_directory then (record c { entries = some entries }, true) else (c, false)
