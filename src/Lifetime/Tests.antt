-- ===== src/Lifetime/Tests.antt =====
-- Examples of the lifetime table.
use scx_cognis.Base.{ℕ, ◌≡◌, arith, none, some, unwrap_or, if◌then◌else◌, ◌==◌}
use scx_cognis.Lifetime.{
  default_lifetime, TaskLifetime, LifetimeTable, new_lifetimes, lifetime_get, lifetime_update,
  lifetime_evict,
}
use scx_cognis.Lifetime.Lookup.{IsLifetimes, lifetime_get-evict, lifetime_get-update_self}
use scx_cognis.Lifetime.Valid.{new_lifetimes-IsLifetimes, lifetime_update-IsLifetimes}
use scx_cognis.Slots.Index.{IsPid}

IsPid-7 : IsPid 7
IsPid-7 = omega arith

IsPid-9 : IsPid 9
IsPid-9 = omega arith

-- A task of each of two pids has run.
abbrev ran : ℕ → TaskLifetime → TaskLifetime
ran ns l = record l { slice_used_ns = ns; last_seen_ns = ns }

abbrev one_task : LifetimeTable
one_task = lifetime_update new_lifetimes 7 (ran 500)

abbrev two_tasks : LifetimeTable
two_tasks = lifetime_update one_task 9 (ran 900)

two_tasks-IsLifetimes : IsLifetimes two_tasks
two_tasks-IsLifetimes =
    lifetime_update-IsLifetimes one_task
      (lifetime_update-IsLifetimes new_lifetimes new_lifetimes-IsLifetimes 7 (ran 500) IsPid-7) 9
      (ran 900) IsPid-9

lifetime_get-evict_example :
    lifetime_get (lifetime_evict two_tasks 7) 9
    ≡ (if 9 == 7 then none else lifetime_get two_tasks 9)
lifetime_get-evict_example = lifetime_get-evict two_tasks 7 9 two_tasks-IsLifetimes IsPid-9

lifetime_get-update_self_example :
    lifetime_get (lifetime_update two_tasks 7 (ran 800)) 7
    ≡ some (ran 800 (unwrap_or (lifetime_get two_tasks 7) default_lifetime))
lifetime_get-update_self_example =
    lifetime_get-update_self two_tasks two_tasks-IsLifetimes 7 (ran 800) IsPid-7
