-- ===== src/Tui/Gauges.antt =====
-- The numbers that src/tui/dashboard.rs computes for its panels: the load of `draw_overview`, the
-- bars of `draw_classification` and the rows of `draw_watchlist`. Texts, colours and layout are left
-- to the terminal library.
use scx_cognis.Base.{
  length-take, ℕ, suc, ◌+◌, ◌-◌, ◌*◌, ◌/◌, ◌%◌, ◌^◌, ◌≤◌, ◌<◌, ◌≡◌, refl, ap, ◌∙◌, min, max, Bool,
  Option, none, some, List, [], ◌∷◌, arith, ltb, ◌==◌, if◌then◌else◌, add64, mul64, take, length,
  All,
}
use native.Mathlib.Nat.{div-le_of_le-mul, div-mul-le_self, lt-div-mul-add}
use scx_cognis.Floats.{FloatOps}
use scx_cognis.Stats.{Metrics}
use scx_cognis.Trust.{Comm}

-- `load_pct` of `draw_overview`.
unfoldable pub load_pct : Metrics → ℕ
load_pct m = if ltb 0 m.nr_cpus then min (mul64 m.nr_running 100 / m.nr_cpus) 100 else 0

-- A bar of full and empty cells, the number and the percentage beside it.
pub record Gauge : Type 0 where
  pub full : ℕ
  pub empty : ℕ
  pub n : ℕ
  pub pct : ℕ

-- `gauge_line`; `none` is a panic: the division by zero, or the length of the empty part below zero,
-- with which `repeat` cannot allocate.
unfoldable pub gauge_line : ℕ → ℕ → Option Gauge
gauge_line n total =
    let pct = mul64 n 100 / total in
    if total == 0
    then none
    else if ltb 20 (pct / 5)
    then none
    else some (record { full = pct / 5; empty = 20 - pct / 5; n = n; pct = pct })

unfoldable pub gauge_lines : List ℕ → ℕ → Option (List Gauge)
gauge_lines [] total = some []
gauge_lines (n ∷ ns) total = elim (gauge_line n total) [
  | none ↦ none
  | some g ↦ elim (gauge_lines ns total) [ none ↦ none | some gs ↦ some (g ∷ gs) ]
]

-- `total` of `draw_classification`.
abbrev pub event_total : Metrics → ℕ
event_total m =
    max (add64 (add64 (add64 m.nr_interactive m.nr_compute) m.nr_iowait) m.nr_realtime) 1

unfoldable pub draw_classification : Metrics → Option (List Gauge)
draw_classification m =
    gauge_lines (m.nr_interactive ∷ m.nr_compute ∷ m.nr_iowait ∷ m.nr_realtime ∷ []) (event_total m)

pub record WallEntry (F64 : Type 0) : Type 0 where
  pub pid : ℕ
  pub comm : Comm
  pub trust : F64
  pub is_flagged : Bool

-- A row of the watchlist: the entry, and whether it is red.
pub record WallRow (F64 : Type 0) : Type 0 where
  pub entry : WallEntry F64
  pub is_red : Bool

module _ {F64 : Type 0} (fl : FloatOps F64) where
  abbrev pub rows_of : List (WallEntry F64) → List (WallRow F64)
  rows_of [] = []
  rows_of (e ∷ es) = record { entry = e; is_red = fl.lt e.trust (fl.lit 2 1) } ∷ rows_of es

  -- `draw_watchlist`, in an area of `height` lines; the difference wraps around.
  unfoldable pub draw_watchlist : ℕ → List (WallEntry F64) → List (WallRow F64)
  draw_watchlist height entries = rows_of (take ((height + (2 ^ 64 - 4)) % 2 ^ 64) entries)

-- A gauge of 20 cells that shows the share of `n` in `total`, rounded down.
pub record IsGauge (total n : ℕ) (g : Gauge) : Type 0 where
  pub number : g.n ≡ n
  pub cells : g.full + g.empty ≡ 20
  pub filled : (g.full * 5 ≤ g.pct) × (g.pct < g.full * 5 + 5)
  pub share : (g.pct * total ≤ n * 100) × (n * 100 < (g.pct + 1) * total)
  pub bound : g.pct ≤ 100

gauge : ℕ → ℕ → Gauge
gauge n total =
    let pct = n * 100 / total in record { full = pct / 5; empty = 20 - pct / 5; n = n; pct = pct }

pct_bound : (n total : ℕ) → 0 < total → n ≤ total → n * 100 / total ≤ 100
pct_bound n total h k = div-le_of_le-mul total (omega arith)

gauge_line_lem :
    (n total : ℕ)
    → 0 < total
    → n ≤ total
    → n * 100 < 2 ^ 64
    → gauge_line n total ≡ some (gauge n total)
unfolding gauge_line gauge
gauge_line_lem n total h k small = ground (arith, pct_bound n total h k)

gauge-IsGauge : (n total : ℕ) → 0 < total → n ≤ total → IsGauge total n (gauge n total)
unfolding gauge
gauge-IsGauge n total h k =
    let top : n * 100 / total ≤ 100 = pct_bound n total h k in
    record {
      number = refl;
      cells = omega (arith, top);
      filled = (omega arith, omega arith);
      share = (
        div-mul-le_self (n * 100) total,
        omega (arith, lt-div-mul-add {a = n * 100} {b = total} h),
      );
      bound = top;
    }

-- A list of gauges for a list of numbers.
abbrev pub AreGauges : ℕ → List ℕ → List Gauge → Type 0
AreGauges total [] [] = Unit
AreGauges total [] (g ∷ gs) = ⊥
AreGauges total (n ∷ ns) [] = ⊥
AreGauges total (n ∷ ns) (g ∷ gs) = IsGauge total n g × AreGauges total ns gs

gauge_lines-∷ :
    (n : ℕ) (ns : List ℕ) (total : ℕ) (g : Gauge) (gs : List Gauge)
    → gauge_line n total ≡ some g
    → gauge_lines ns total ≡ some gs
    → gauge_lines (n ∷ ns) total ≡ some (g ∷ gs)
unfolding gauge_lines
gauge_lines-∷ n ns total g gs e f = rw (e, f, gauge_lines) refl

gauge_lines-AreGauges :
    (ns : List ℕ) (total : ℕ)
    → 0 < total
    → All (λ n. (n ≤ total) × (n * 100 < 2 ^ 64)) ns
    → (gs : List Gauge) × (gauge_lines ns total ≡ some gs) × AreGauges total ns gs
unfolding gauge_lines
gauge_lines-AreGauges [] total h a = ([], refl, tt)
gauge_lines-AreGauges (n ∷ ns) total h ((k, small), a) =
    let (gs, e, v) = gauge_lines-AreGauges ns total h a in
    (
      gauge n total ∷ gs,
      gauge_lines-∷ n ns total (gauge n total) gs (gauge_line_lem n total h k small) e,
      (gauge-IsGauge n total h k, v),
    )

event_sum : Metrics → ℕ
event_sum m = m.nr_interactive + m.nr_compute + m.nr_iowait + m.nr_realtime

event_total_lem : (m : Metrics) → event_sum m * 100 < 2 ^ 64 → event_total m ≡ max (event_sum m) 1
unfolding event_sum
event_total_lem m h = omega arith

-- While a hundred times the number of classified events fits a `u64`, `draw_classification` does not
-- panic and draws a bar of 20 cells for each of the four labels: the percentage is the label's share
-- of the events rounded down, at most 100, and every five percent fill a cell.
pub draw_classification-AreGauges :
    (m : Metrics)
    → (m.nr_interactive + m.nr_compute + m.nr_iowait + m.nr_realtime) * 100 < 2 ^ 64
    → (gs : List Gauge) × (draw_classification m ≡ some gs)
      × AreGauges
          (event_total m)
          (m.nr_interactive ∷ m.nr_compute ∷ m.nr_iowait ∷ m.nr_realtime ∷ [])
          gs
unfolding draw_classification event_sum
draw_classification-AreGauges m h =
    let e : event_total m ≡ max (event_sum m) 1 = event_total_lem m h in
    gauge_lines-AreGauges (m.nr_interactive ∷ m.nr_compute ∷ m.nr_iowait ∷ m.nr_realtime ∷ [])
      (event_total m) (omega (arith, e))
      (
        (omega (arith, e), omega arith),
        (
          (omega (arith, e), omega arith),
          ((omega (arith, e), omega arith), ((omega (arith, e), omega arith), tt)),
        ),
      )

-- The load is a percentage, and the true one when a hundred times the running tasks fits a `u64`
-- and no more tasks run than there are CPUs.
pub load_pct-share :
    (m : Metrics)
    → m.nr_running * 100 < 2 ^ 64
    → 0 < m.nr_cpus
    → m.nr_running ≤ m.nr_cpus
    → (load_pct m * m.nr_cpus ≤ m.nr_running * 100)
      × (m.nr_running * 100 < (load_pct m + 1) * m.nr_cpus)
      × (load_pct m ≤ 100)
unfolding load_pct
load_pct-share m h c k =
    let top : m.nr_running * 100 / m.nr_cpus ≤ 100 = pct_bound m.nr_running m.nr_cpus c k in
    let e : load_pct m ≡ m.nr_running * 100 / m.nr_cpus = ground (arith, top) in
    rw e (
      div-mul-le_self (m.nr_running * 100) m.nr_cpus,
      omega (arith, lt-div-mul-add {a = m.nr_running * 100} {b = m.nr_cpus} c),
      top,
    )

length-rows_of :
    {F64 : Type 0} (fl : FloatOps F64) (es : List (WallEntry F64))
    → length (rows_of fl es) ≡ length es
length-rows_of fl [] = refl
length-rows_of fl (e ∷ es) = ap suc (length-rows_of fl es)

-- In an area of at least four lines the watchlist has at most as many rows as fit its frame, and in
-- a lower one it has a row for each entry, however many they are.
pub draw_watchlist-rows :
    {F64 : Type 0} (fl : FloatOps F64) (height : ℕ) (entries : List (WallEntry F64))
    → height < 2 ^ 16
    → length entries < 2 ^ 63
    → length (draw_watchlist fl height entries)
      ≡ (if ltb height 4 then length entries else min (height - 4) (length entries))
unfolding draw_watchlist
draw_watchlist-rows fl height entries h k =
    length-rows_of fl (take ((height + (2 ^ 64 - 4)) % 2 ^ 64) entries)
    ∙ length-take ((height + (2 ^ 64 - 4)) % 2 ^ 64) entries
    ∙ ground arith
