-- ===== src/Slots/Tests.antt =====
-- Examples of the pid tables.
use scx_cognis.Base.{ℕ, List, arith, replicate}
use scx_cognis.Slots.{table_size, pid_empty, place, placed}
use scx_cognis.Slots.Index.{IsPid, IsIndexed, zeroed-IsIndexed, placed-IsIndexed}

abbrev no_pids : List ℕ
no_pids = replicate table_size pid_empty

IsPid-7 : IsPid 7
IsPid-7 = omega arith

IsPid-9 : IsPid 9
IsPid-9 = omega arith

abbrev one_pid : List ℕ
one_pid = placed no_pids 7 (place no_pids 7)

one_pid-IsIndexed : IsIndexed one_pid
one_pid-IsIndexed = placed-IsIndexed zeroed-IsIndexed 7 IsPid-7
