-- ===== src/Lifetime/Lookup.antt =====
-- The lifetime table of src/main.rs as a map of pids.
use scx_cognis.Base.{
  ℕ, ◌<◌, ◌≡◌, ◌≢◌, refl, sym, ap, ◌∙◌, true, Option, none, some, List, arith, ◌==◌, if◌then◌else◌,
  length, get_or, set, get_or-set_self, get_or-set_ne, length-set, Bool-cases, inl, inr, ==→eq,
  unwrap_or,
}
use scx_cognis.Lifetime.{
  TaskLifetime, LifetimeTable, default_lifetime, lifetime_get, lifetime_at, lifetime_update,
  lifetime_evict, evict_at, insert_at, lifetime_find_slot, lifetime_find_or_insert_slot,
}
use scx_cognis.Slots.{
  table_size, pid_empty, pid_tombstone, is_live, find_slot, Place, found, fresh, place, place_index,
}
use scx_cognis.Slots.Index.{
  IsPid, IsIndexed, find_slot_sound, find_slot-tomb_self, find_slot-tomb_other,
}
use scx_cognis.Slots.Probe.{find_slot-found, find_slot-fresh, find_slot-absent, place-lt}

pub record IsLifetimes (t : LifetimeTable) : Type 0 where
  pub index : IsIndexed t.pids
  pub sized : length t.table ≡ table_size

live-IsPid : (pid : ℕ) → IsPid pid → is_live pid ≡ true
live-IsPid pid p = ground (arith, p.positive, p.small)

get-IsPid :
    (t : LifetimeTable) (pid : ℕ)
    → IsPid pid
    → lifetime_get t pid ≡ lifetime_at t (find_slot t.pids pid)
unfolding lifetime_get
get-IsPid t pid p = rw (live-IsPid pid p) refl

-- The table after a write at a place.
abbrev written : LifetimeTable → ℕ → (TaskLifetime → TaskLifetime) → Place → LifetimeTable
written t pid f r =
    let t' = insert_at t pid r in
    record t' {
      table = set t'.table (place_index r) (f (get_or t'.table (place_index r) default_lifetime));
    }

update-written :
    (t : LifetimeTable) (pid : ℕ) (f : TaskLifetime → TaskLifetime)
    → lifetime_update t pid f ≡ written t pid f (place t.pids pid)
unfolding lifetime_update lifetime_find_or_insert_slot
update-written t pid f = refl

module _ (t : LifetimeTable) (v : IsLifetimes t) (pid : ℕ) (f : TaskLifetime → TaskLifetime) where
  written_self :
      (r : Place)
      → place t.pids pid ≡ r
      → lifetime_at (written t pid f r) (find_slot (written t pid f r).pids pid)
        ≡ some (f (unwrap_or (lifetime_at t (find_slot t.pids pid)) default_lifetime))
  written_self (found s) e =
      let at : find_slot t.pids pid ≡ some s = find_slot-found t.pids pid s e in
      let small : s < length t.table =
        omega (arith, v.sized, (find_slot_sound t.pids pid s at).0) in
      let old = get_or t.table s default_lifetime in
      rw at (ap some (get_or-set_self t.table s (f old) default_lifetime small))
  written_self (fresh d) e =
      let at = find_slot-fresh t.pids pid d v.index.sized e in
      let absent = find_slot-absent t.pids pid d e in
      let small : d < length t.table = omega (arith, v.sized, place-lt t.pids pid d e) in
      let zeroed : List TaskLifetime = set t.table d default_lifetime in
      let old : get_or zeroed d default_lifetime ≡ default_lifetime =
        get_or-set_self t.table d default_lifetime default_lifetime small in
      let still : d < length zeroed = omega (arith, small, length-set t.table d default_lifetime) in
      rw (at, absent)
        (ap some (
          get_or-set_self zeroed d (f (get_or zeroed d default_lifetime)) default_lifetime still
          ∙ ap f old))

  -- In a well-formed lifetime table, after a write through `lifetime_get_mut_or_default` for a real pid
  -- (positive, below 2 ^ 31) the lookup of the pid gives what the write makes of its entry, or of
  -- the default entry where it had none.
  pub lifetime_get-update_self :
      IsPid pid
      → lifetime_get (lifetime_update t pid f) pid
        ≡ some (f (unwrap_or (lifetime_get t pid) default_lifetime))
  lifetime_get-update_self p =
      rw
        (
          update-written t pid f,
          get-IsPid (written t pid f (place t.pids pid)) pid p,
          get-IsPid t pid p,
        )
        (written_self (place t.pids pid) refl)

-- A lookup at another slot than one that is written.
at-other :
    (t : LifetimeTable) (pids : List ℕ) (s : ℕ) (o : Option ℕ)
    → ¬ (o ≡ some s)
    → lifetime_at (record { pids = pids; table = set t.table s default_lifetime }) o
      ≡ lifetime_at t o
at-other t pids s none ne = refl
at-other t pids s (some e) ne =
    ap some (
      get_or-set_ne t.table s e default_lifetime default_lifetime (λ same. ne (ap some (sym same))))

evicted :
    (t : LifetimeTable) (pid q : ℕ) (o : Option ℕ)
    → IsLifetimes t
    → IsPid q
    → find_slot t.pids pid ≡ o
    → lifetime_at (evict_at t o) (find_slot (evict_at t o).pids q)
      ≡ (if q == pid then none else lifetime_at t (find_slot t.pids q))
evicted t pid q none v pq e = elim (Bool-cases (q == pid)) [
  | inl same ↦ rw (same, ==→eq q pid same, e) refl
  | inr other ↦ rw other refl
]
evicted t pid q (some s) v pq e = elim (Bool-cases (q == pid)) [
  | inl same ↦
      let at : find_slot t.pids q ≡ some s = ap (find_slot t.pids) (==→eq q pid same) ∙ e in
      rw (same, find_slot-tomb_self v.index q s pq at) refl
  | inr other ↦
      let ne : q ≢ pid = ground arith in
      let held : get_or t.pids s pid_empty ≡ pid = (find_slot_sound t.pids pid s e).1 in
      let apart : ¬ (find_slot t.pids q ≡ some s) =
        λ f. ne (sym (find_slot_sound t.pids q s f).1 ∙ held) in
      rw (other, find_slot-tomb_other v.index pid q s pq ne e)
        (at-other t (set t.pids s pid_tombstone) s (find_slot t.pids q) apart)
]

evict-at : (t : LifetimeTable) (pid : ℕ) → lifetime_evict t pid ≡ evict_at t (find_slot t.pids pid)
unfolding lifetime_evict lifetime_find_slot
evict-at t pid = refl

-- In a well-formed lifetime table, after the eviction of a pid the lookup of any real pid (positive,
-- below 2 ^ 31) gives nothing when it is the evicted one, and what it gave before otherwise.
pub lifetime_get-evict :
    (t : LifetimeTable) (pid q : ℕ)
    → IsLifetimes t
    → IsPid q
    → lifetime_get (lifetime_evict t pid) q ≡ (if q == pid then none else lifetime_get t q)
lifetime_get-evict t pid q v pq =
    rw (evict-at t pid, get-IsPid (evict_at t (find_slot t.pids pid)) q pq, get-IsPid t q pq)
      (evicted t pid q (find_slot t.pids pid) v pq refl)
