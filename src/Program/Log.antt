-- ===== src/Program/Log.antt =====
-- httpd/log.cpp, on Linux: a log is written where it is destroyed.
use bnc.Prelude.{ℕ, ◌+◌, Bool, true, List, [], ◌∷◌, ◌++◌, if◌then◌else◌}
use bnc.Prelude.Bytes.{Bytes}

-- `log::priority`
pub data Priority : Type 0 where
  emerg : Priority
  alert : Priority
  crit : Priority
  err : Priority
  warn : Priority
  notice : Priority
  info : Priority
  debug : Priority

-- A log that is being written.
pub record Log : Type 0 where
  pub level : Priority
  pub o : Bytes

-- The system log, whether it was opened, how many times, and what was written to it and to the
-- standard error.
pub record System : Type 0 where
  pub is_syslog_open : Bool
  pub opened : ℕ
  pub syslog : List (Priority × Bytes)
  pub cerr : List Bytes

unfoldable pub new_log : System → Priority → System × Log
new_log s level = (
  if s.is_syslog_open then s else record s { is_syslog_open = true; opened = s.opened + 1 },
  record { level = level; o = [] },
)

-- `operator <<`, of a text.
unfoldable pub append : Log → Bytes → Log
append l t = record l { o = l.o ++ t }

-- The destructor.
unfoldable pub destroy : Bool → System → Log → System
destroy debug_mode s l =
    let logged = record s { syslog = s.syslog ++ (l.level, l.o) ∷ [] } in
    if debug_mode then record logged { cerr = logged.cerr ++ l.o ∷ [] } else logged

-- `log( level ) << text`
unfoldable pub log : Bool → System → Priority → Bytes → System
unfolding new_log append destroy
log debug_mode s level text =
    let (opened, l) = new_log s level in destroy debug_mode opened (append l text)
