-- ===== src/Control/Reports.antt =====
-- src/threads/control.cpp: what `control` prints.
use octopusmq_cpp.Base.{some, List, [], ◌∷◌, ◌++◌, ltb, if◌then◌else◌, codes, length}
use octopusmq_cpp.Error.{Error, what}
use octopusmq_cpp.Numerals.{decimal}
use octopusmq_cpp.Network.Addresses.{Inet, ip_string}
use octopusmq_cpp.Adapter.{Settings}
use octopusmq_cpp.Log.{
  info, fatal, error, more, Log, Printing, printed, ◌>>=◌, white, reset, print, print_help,
  print_empty_line,
}
use octopusmq_cpp.Log.Format.{text, number, print_format}

-- `daemonize` prints, and then calls `exit(1)`.
unfoldable pub print_daemonize : Log → Printing
print_daemonize l =
    print_format fatal
      (some (codes "daemonization is not supported in current version of octopusmq.")) [] l

-- The `catch` of `initialize_adapters`.
unfoldable pub print_failed : Settings → Error → Log → Printing
print_failed s e l = print fatal (codes "adapter '" ++ s.name ++ codes "': " ++ what e) l

-- `run` without a configuration file.
unfoldable pub print_missing : Log → Printing
print_missing l =
    print_format error (some (codes "configuration file argument is missing.")) [] l >>= λ m.
    printed (print_help m)

unfoldable pub print_each : Inet → List Settings → Log → Printing
print_each inet [] l = printed l
print_each inet (s ∷ ss) l =
    print more
      (s.name
        ++ white
        ++ codes " listening on "
        ++ ip_string inet s.phy.ip
        ++ codes ":"
        ++ decimal s.port
        ++ reset)
      l
    >>= λ m. print_each inet ss m

-- `print_adapters`, for the settings of the pool.
unfoldable pub print_adapters : Inet → List Settings → Log → Printing
print_adapters inet pool l =
    print_format info (some (codes "running %lu %s:"))
      (number (length pool)
        ∷ text (if ltb 1 (length pool) then codes "adapters" else codes "adapter")
        ∷ [])
      l
    >>= (λ m. print_each inet pool m)
    >>= λ m. printed (print_empty_line m)
