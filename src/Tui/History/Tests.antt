-- ===== src/Tui/History/Tests.antt =====
-- Concrete rings for the theorems on `HistoryRing` of src/tui/dashboard.rs.
use scx_cognis.Base.{◌≡◌, arith, refl, some, List, [], ◌∷◌, All}
use scx_cognis.Floats.{Le, zero_lit}
use scx_cognis.Floats.Fixed.{ℤ, fixed_ops, fixed-IsOrdered}
use scx_cognis.Tui.History.{HistoryRing, new_ring, push, iter_ordered}
use scx_cognis.Tui.History.Chart.{
  LatencyChart, draw_latency_chart, draw_latency_chart-Inside, numbered, Inside,
}
use scx_cognis.Tui.History.Recent.{
  new_ring-IsRing, push-IsRing, pushes, recent, iter_ordered-pushes,
}

abbrev three_values : List ℤ
three_values = fixed_ops.lit 3 0 ∷ fixed_ops.lit 1 1 ∷ fixed_ops.lit 20 0 ∷ []

iter_ordered-pushes_example :
    iter_ordered fixed_ops (pushes fixed_ops (new_ring fixed_ops) three_values)
    ≡ recent three_values
iter_ordered-pushes_example = iter_ordered-pushes fixed_ops three_values

abbrev one_value : HistoryRing ℤ
one_value = push fixed_ops (new_ring fixed_ops) (fixed_ops.lit 20 0)

one_value_nonneg : All (λ v. Le fixed_ops (zero_lit fixed_ops) v) (iter_ordered fixed_ops one_value)
unfolding iter_ordered push
one_value_nonneg = (refl, tt)

draw_latency_chart-Inside_example :
    (c : LatencyChart ℤ) × (draw_latency_chart fixed_ops one_value ≡ some c)
    × (c.points ≡ numbered fixed_ops 0 (iter_ordered fixed_ops one_value))
    × All (Inside fixed_ops c) c.points
draw_latency_chart-Inside_example =
    draw_latency_chart-Inside fixed_ops one_value fixed-IsOrdered (λ m n h. ground arith)
      (push-IsRing fixed_ops (new_ring fixed_ops) (fixed_ops.lit 20 0) (new_ring-IsRing fixed_ops))
      one_value_nonneg
