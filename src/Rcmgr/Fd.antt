-- ===== src/Rcmgr/Fd.antt =====
-- internal/fd: the number of files that the process may have open, by operating system.
use someguy.Prelude.{ℕ, zero, Option, none, some}
use someguy.Prelude.Int.{ℤ, pos, wrap64}

-- GetNumFDs of Linux and macOS: the soft limit of getrlimit, an uint64; none is an error.
unfoldable pub get_num_fds_unix : Option ℕ → ℤ
get_num_fds_unix none = pos zero
get_num_fds_unix (some cur) = wrap64 cur

abbrev pub get_num_fds_windows : ℤ
get_num_fds_windows = pos 9223372036854775807

abbrev pub get_num_fds_other : ℤ
get_num_fds_other = pos zero
