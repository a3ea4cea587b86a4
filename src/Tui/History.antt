-- ===== src/Tui/History.antt =====
-- `HistoryRing` of src/tui/dashboard.rs, and the points of the latency chart that are drawn from it.
pub mod Recent
pub mod Chart
pub mod Tests
use scx_cognis.Base.{
  ℕ, zero, suc, ◌+◌, ◌%◌, Option, none, some, List, [], ◌∷◌, ltb, if◌then◌else◌, length, get_or,
  set, replicate, max,
}
use scx_cognis.Floats.{FloatOps, zero_lit}

abbrev pub history_len : ℕ
history_len = 120

pub record HistoryRing (F : Type 0) : Type 0 where
  pub buf : List F
  pub head : ℕ
  pub len : ℕ

-- `(0..n).map(f)`, collected.
abbrev pub map_range : {A : Type 0} → ℕ → (ℕ → A) → List A
map_range zero f = []
map_range (suc n) f = f 0 ∷ map_range n (λ i. f (suc i))

module _ {F : Type 0} (fl : FloatOps F) where
  abbrev pub new_ring : HistoryRing F
  new_ring = record { buf = replicate history_len (zero_lit fl); head = 0; len = 0 }

  unfoldable pub push : HistoryRing F → F → HistoryRing F
  push r v = record {
    buf = set r.buf r.head v;
    head = (r.head + 1) % history_len;
    len = if ltb r.len history_len then r.len + 1 else r.len;
  }

  abbrev pub start : HistoryRing F → ℕ
  start r = if ltb r.len history_len then 0 else r.head

  unfoldable pub iter_ordered : HistoryRing F → List F
  iter_ordered r = map_range r.len (λ i. get_or r.buf ((start r + i) % history_len) (zero_lit fl))

  abbrev pub fold_max : F → List F → F
  fold_max m [] = m
  fold_max m (v ∷ vs) = fold_max (fl.fmax m v) vs

  unfoldable pub max_or : HistoryRing F → F → F
  max_or r default = fold_max default (iter_ordered r)
