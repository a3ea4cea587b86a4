-- ===== src/Lifetime/Flags.antt =====
-- The cheat flags of the lifetime table of src/main.rs.
use scx_cognis.Base.{ℕ, ◌≡◌, refl, false, Option, none, some, All, All-set, get_or}
use scx_cognis.Lifetime.{
  TaskLifetime, LifetimeTable, default_lifetime, insert_at, evict_at, lifetime_find_slot,
  lifetime_find_or_insert_slot, lifetime_update, lifetime_evict,
}
use scx_cognis.Slots.{Place, found, fresh, place, place_index}

-- No entry says that its pid cheated.
abbrev pub Unflagged : LifetimeTable → Type 0
Unflagged t = All (λ e. e.cheat_flagged ≡ false) t.table

insert-Unflagged :
    (t : LifetimeTable) (pid : ℕ) (p : Place) → Unflagged t → Unflagged (insert_at t pid p)
insert-Unflagged t pid (found s) h = h
insert-Unflagged t pid (fresh s) h =
    All-set (λ e. e.cheat_flagged ≡ false) t.table s default_lifetime h refl

evict_at-Unflagged : (t : LifetimeTable) (o : Option ℕ) → Unflagged t → Unflagged (evict_at t o)
evict_at-Unflagged t none h = h
evict_at-Unflagged t (some s) h =
    All-set (λ e. e.cheat_flagged ≡ false) t.table s default_lifetime h refl

pub update-Unflagged :
    (t : LifetimeTable) (pid : ℕ) (f : TaskLifetime → TaskLifetime)
    → Unflagged t
    → ((e : TaskLifetime) → (f e).cheat_flagged ≡ false)
    → Unflagged (lifetime_update t pid f)
unfolding lifetime_update lifetime_find_or_insert_slot
update-Unflagged t pid f h k =
    All-set (λ e. e.cheat_flagged ≡ false) _ _ _ (insert-Unflagged t pid (place t.pids pid) h)
      (k (
        get_or (insert_at t pid (place t.pids pid)).table (place_index (place t.pids pid))
          default_lifetime))

pub evict-Unflagged : (t : LifetimeTable) (pid : ℕ) → Unflagged t → Unflagged (lifetime_evict t pid)
unfolding lifetime_evict
evict-Unflagged t pid h = evict_at-Unflagged t (lifetime_find_slot t pid) h
