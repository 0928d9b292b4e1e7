-- ===== src/Io.antt =====
-- What the program looks at in a `std::io::Error`: its kind.
pub mod File
pub mod Source
use warpfile.Common.{Bool, true, false}

pub data ErrorKind : Type 0 where
  not_found : ErrorKind
  already_exists : ErrorKind
  invalid_input : ErrorKind
  connection_refused connection_reset connection_aborted not_connected : ErrorKind
  broken_pipe timed_out unexpected_eof interrupted write_zero : ErrorKind
  other : ErrorKind

-- `error.kind() == io::ErrorKind::NotFound`
abbrev pub is_not_found : ErrorKind → Bool
is_not_found not_found = true
is_not_found _ = false
