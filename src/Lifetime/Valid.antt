-- ===== src/Lifetime/Valid.antt =====
-- The invariant of the lifetime table of src/main.rs: a new table has it and each operation keeps it.
use scx_cognis.Base.{
  ℕ, ◌≡◌, refl, ◌∙◌, Option, none, some, get_or, set, length-set, length-replicate,
}
use scx_cognis.Lifetime.{
  TaskLifetime, LifetimeTable, default_lifetime, new_lifetimes, lifetime_update, lifetime_evict,
  evict_at, insert_at, lifetime_find_slot, lifetime_find_or_insert_slot,
}
use scx_cognis.Lifetime.Lookup.{IsLifetimes}
use scx_cognis.Slots.{table_size, find_slot, Place, found, fresh, place, placed, place_index}
use scx_cognis.Slots.Index.{
  IsPid, IsIndexed, zeroed-IsIndexed, find_slot_sound, placed-IsIndexed, tomb-IsIndexed,
}

pub new_lifetimes-IsLifetimes : IsLifetimes new_lifetimes
unfolding new_lifetimes
new_lifetimes-IsLifetimes = record {
  index = zeroed-IsIndexed;
  sized = length-replicate table_size default_lifetime;
}

module _ (t : LifetimeTable) (v : IsLifetimes t) (pid : ℕ) where
  insert-IsLifetimes :
      (r : Place) → IsIndexed (placed t.pids pid r) → IsLifetimes (insert_at t pid r)
  insert-IsLifetimes (found s) ix = v
  insert-IsLifetimes (fresh d) ix = record {
    index = ix;
    sized = length-set t.table d default_lifetime ∙ v.sized;
  }

  set-IsLifetimes :
      (u : LifetimeTable) (s : ℕ) (x : TaskLifetime)
      → IsLifetimes u
      → IsLifetimes (record u { table = set u.table s x })
  set-IsLifetimes u s x w = record { index = w.index; sized = length-set u.table s x ∙ w.sized }

  -- A write through `lifetime_get_mut_or_default` keeps the invariant.
  pub lifetime_update-IsLifetimes :
      (f : TaskLifetime → TaskLifetime) → IsPid pid → IsLifetimes (lifetime_update t pid f)
  unfolding lifetime_update lifetime_find_or_insert_slot
  lifetime_update-IsLifetimes f p =
      let r = place t.pids pid in
      let u = insert_at t pid r in
      set-IsLifetimes u (place_index r) (f (get_or u.table (place_index r) default_lifetime))
        (insert-IsLifetimes r (placed-IsIndexed v.index pid p))

  evicted-IsLifetimes : (o : Option ℕ) → find_slot t.pids pid ≡ o → IsLifetimes (evict_at t o)
  evicted-IsLifetimes none e = v
  evicted-IsLifetimes (some s) e = record {
    index = tomb-IsIndexed v.index s (find_slot_sound t.pids pid s e).0;
    sized = length-set t.table s default_lifetime ∙ v.sized;
  }

  -- An eviction keeps the invariant.
  pub lifetime_evict-IsLifetimes : IsLifetimes (lifetime_evict t pid)
  unfolding lifetime_evict lifetime_find_slot
  lifetime_evict-IsLifetimes = evicted-IsLifetimes (find_slot t.pids pid) refl
