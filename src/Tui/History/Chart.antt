-- ===== src/Tui/History/Chart.antt =====
-- `draw_latency_chart` of src/tui/dashboard.rs: the points and the bounds of the axes that the chart
-- is given. Its styles and labels are not modelled.
use scx_cognis.Base.{
  ℕ, suc, ◌+◌, ◌≤◌, ◌≡◌, refl, sym, ap, ap₂, ◌∙◌, max, true, Option, none, some, List, [], ◌∷◌,
  ◌++◌, arith, ltb, if◌then◌else◌, length, set, take, drop, replicate, length-replicate,
  length-append, set-append, length-snoc, append-snoc, take-append, All,
}
use scx_cognis.Floats.{FloatOps, zero_lit, Le, IsOrdered}
use scx_cognis.Tui.History.{HistoryRing, history_len, iter_ordered, max_or, fold_max}
use scx_cognis.Tui.History.Recent.{IsRing, length-iter_ordered}

pub record LatencyChart (F : Type 0) : Type 0 where
  pub points : List (F × F)
  pub x_bounds : F × F
  pub y_bounds : F × F

module _ {F : Type 0} (fl : FloatOps F) where
  -- The loop over the values, from the `i`-th on; a write behind the end of `points` would panic.
  unfoldable pub fill_data : List (F × F) → ℕ → ℕ → List F → Option (List (F × F) × ℕ)
  fill_data points data_len i [] = some (points, data_len)
  fill_data points data_len i (v ∷ vs) =
      let rest = fill_data (set points data_len (fl.of_u64 i, v)) (data_len + 1) (i + 1) vs in
      if ltb data_len (length points) then rest else none

  abbrev pub chart_of : F → Option (List (F × F) × ℕ) → Option (LatencyChart F)
  chart_of max_y none = none
  chart_of max_y (some (points, data_len)) = some (record {
    points = take data_len points;
    x_bounds = (zero_lit fl, fl.of_u64 (max data_len 1));
    y_bounds = (zero_lit fl, fl.fmax max_y (fl.lit 15 0));
  })

  -- `draw_latency_chart`
  unfoldable pub draw_latency_chart : HistoryRing F → Option (LatencyChart F)
  draw_latency_chart r =
      chart_of (max_or fl r (fl.lit 10 0))
        (fill_data (replicate history_len (zero_lit fl, zero_lit fl)) 0 0 (iter_ordered fl r))

  -- The values with their places, from `i` on.
  abbrev pub numbered : ℕ → List F → List (F × F)
  numbered i [] = []
  numbered i (v ∷ vs) = (fl.of_u64 i, v) ∷ numbered (i + 1) vs

  length-numbered : (i : ℕ) (vs : List F) → length (numbered i vs) ≡ length vs
  length-numbered i [] = refl
  length-numbered i (v ∷ vs) = ap suc (length-numbered (i + 1) vs)

  fill_data-numbered :
      (pre rest : List (F × F)) (vs : List F)
      → length vs ≤ length rest
      → fill_data (pre ++ rest) (length pre) (length pre) vs
        ≡ some (pre ++ (numbered (length pre) vs ++ drop (length vs) rest), length pre + length vs)
  unfolding fill_data
  fill_data-numbered pre rest [] h =
      let e : length pre ≡ length pre + 0 = omega arith in ap (λ n. some (pre ++ rest, n)) e
  fill_data-numbered pre [] (v ∷ vs) h = absurd (omega arith)
  fill_data-numbered pre (p ∷ rest) (v ∷ vs) h =
      let q : F × F = (fl.of_u64 (length pre), v) in
      let room : ltb (length pre) (length (pre ++ p ∷ rest)) ≡ true =
        ground (arith, length-append pre (p ∷ rest)) in
      let more : List (F × F) = drop (length vs) rest in
      let count : length (pre ++ q ∷ []) + length vs ≡ length pre + suc (length vs) =
        omega (arith, length-snoc pre q) in
      rw room refl
      ∙ ap (λ ps. fill_data ps (length pre + 1) (length pre + 1) vs)
          (set-append pre p q rest ∙ sym (append-snoc pre q rest))
      ∙ ap (λ k. fill_data ((pre ++ q ∷ []) ++ rest) k k vs) (sym (length-snoc pre q))
      ∙ fill_data-numbered (pre ++ q ∷ []) rest vs (omega arith)
      ∙ ap₂ (λ ps n. some (ps, n))
          (append-snoc pre q (numbered (length (pre ++ q ∷ [])) vs ++ more)
            ∙ ap (λ k. pre ++ q ∷ (numbered k vs ++ more)) (length-snoc pre q))
          count

  -- The chart has a point for each value, numbered from the oldest.
  pub draw_latency_chart-numbered :
      (r : HistoryRing F)
      → IsRing r
      → draw_latency_chart r
        ≡ some (record {
          points = numbered 0 (iter_ordered fl r);
          x_bounds = (zero_lit fl, fl.of_u64 (max r.len 1));
          y_bounds = (zero_lit fl, fl.fmax (max_or fl r (fl.lit 10 0)) (fl.lit 15 0));
        })
  unfolding draw_latency_chart
  draw_latency_chart-numbered r w =
      let vs = iter_ordered fl r in
      let zeros : List (F × F) = replicate history_len (zero_lit fl, zero_lit fl) in
      let count : length vs ≡ r.len = length-iter_ordered fl r in
      let from_zero : 0 + length vs ≡ r.len = omega (arith, count) in
      let fits : length vs ≤ length zeros = omega (
        arith,
        w.len_bound,
        count,
        length-replicate {A = F × F} history_len (zero_lit fl, zero_lit fl),
      ) in
      let cut : take r.len (numbered 0 vs ++ drop (length vs) zeros) ≡ numbered 0 vs =
        ap (λ n. take n (numbered 0 vs ++ drop (length vs) zeros))
          (sym (length-numbered 0 vs ∙ count))
        ∙ take-append (numbered 0 vs) (drop (length vs) zeros) in
      ap (chart_of (max_or fl r (fl.lit 10 0))) (fill_data-numbered [] zeros vs fits)
      ∙ ap
          (λ n.
            chart_of (max_or fl r (fl.lit 10 0))
              (some (numbered 0 vs ++ drop (length vs) zeros, n)))
          from_zero
      ∙ ap
          (λ ps. some (record {
            points = ps;
            x_bounds = (zero_lit fl, fl.of_u64 (max r.len 1));
            y_bounds = (zero_lit fl, fl.fmax (max_or fl r (fl.lit 10 0)) (fl.lit 15 0));
          }))
          cut

  -- The conversion of integers is monotone, as that of IEEE 754 is.
  abbrev pub ConvertsMono : Type 0
  ConvertsMono = (m n : ℕ) → m ≤ n → Le fl (fl.of_u64 m) (fl.of_u64 n)

  -- A point within the bounds of the axes.
  abbrev pub Inside : LatencyChart F → F × F → Type 0
  Inside c (x, y) =
      (Le fl c.x_bounds.0 x × Le fl x c.x_bounds.1) × (Le fl c.y_bounds.0 y × Le fl y c.y_bounds.1)

  -- The folded maximum is a bound of what it starts from and of the values.
  fold_max-bound :
      (m : F) (vs : List F)
      → IsOrdered fl
      → Le fl m m
      → All (λ v. Le fl (zero_lit fl) v) vs
      → Le fl m (fold_max fl m vs) × All (λ v. Le fl v (fold_max fl m vs)) vs
  fold_max-bound m [] o n h = (n, tt)
  fold_max-bound m (v ∷ vs) o n (hv, h) =
      let nv = o.num_right (zero_lit fl) v hv in
      let left = o.max-ge-left m v n nv in
      let right = o.max-ge-right m v n nv in
      let (more, all) = fold_max-bound (fl.fmax m v) vs o (o.num_right m (fl.fmax m v) left) h in
      (
        o.le_trans m (fl.fmax m v) (fold_max fl (fl.fmax m v) vs) left more,
        (o.le_trans v (fl.fmax m v) (fold_max fl (fl.fmax m v) vs) right more, all),
      )

  numbered-Inside :
      (c : LatencyChart F) (i n : ℕ) (vs : List F) (top : F)
      → IsOrdered fl
      → ConvertsMono
      → c.x_bounds ≡ (zero_lit fl, fl.of_u64 n)
      → c.y_bounds.0 ≡ zero_lit fl
      → i + length vs ≤ n
      → Le fl top c.y_bounds.1
      → All (λ v. Le fl (zero_lit fl) v) vs
      → All (λ v. Le fl v top) vs
      → All (Inside c) (numbered i vs)
  numbered-Inside c i n [] top o m ex ey h ht low high = tt
  numbered-Inside c i n (v ∷ vs) top o m ex ey h ht (lv, low) (hv, high) = (
    (
      (rw (ap (λ p. p.0) ex) (o.of_u64_nonneg i), rw (ap (λ p. p.1) ex) (m i n (omega arith))),
      (rw ey lv, o.le_trans v top c.y_bounds.1 hv ht),
    ),
    numbered-Inside c (i + 1) n vs top o m ex ey (omega arith) ht low high,
  )

  -- Where floats are ordered and conversions from integers are monotone, a well-formed ring of
  -- non-negative numbers gives: `draw_latency_chart` writes no point behind the end of its array,
  -- the chart has one point for each value, numbered from the oldest, and each point lies within
  -- the bounds of both axes.
  pub draw_latency_chart-Inside :
      (r : HistoryRing F)
      → IsOrdered fl
      → ConvertsMono
      → IsRing r
      → All (λ v. Le fl (zero_lit fl) v) (iter_ordered fl r)
      → (c : LatencyChart F) × (draw_latency_chart r ≡ some c)
        × (c.points ≡ numbered 0 (iter_ordered fl r))
        × All (Inside c) c.points
  unfolding max_or
  draw_latency_chart-Inside r o m w h =
      let vs = iter_ordered fl r in
      let ten : F = fl.lit 10 0 in
      let fifteen : F = fl.lit 15 0 in
      let top = max_or fl r ten in
      let n_ten = o.num_right (zero_lit fl) ten (o.lit_nonneg 10 0) in
      let n_fifteen = o.num_right (zero_lit fl) fifteen (o.lit_nonneg 15 0) in
      let (above, high) = fold_max-bound ten vs o n_ten h in
      let n_top = o.num_right ten top above in
      let c : LatencyChart F = record {
        points = numbered 0 vs;
        x_bounds = (zero_lit fl, fl.of_u64 (max r.len 1));
        y_bounds = (zero_lit fl, fl.fmax top fifteen);
      } in
      (
        c,
        draw_latency_chart-numbered r w,
        refl,
        numbered-Inside c 0 (max r.len 1) vs top o m refl refl
            (omega (arith, length-iter_ordered fl r)) (o.max-ge-left top fifteen n_top n_fifteen) h
            high,
      )
