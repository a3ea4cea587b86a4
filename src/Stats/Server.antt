-- ===== src/Stats/Server.antt =====
-- `server_data` of src/stats.rs: a client's session, in which each read yields the difference to the
-- snapshot before. The channels of scx_stats are a parameter: the answer to each request, or nothing
-- where sending or receiving fails.
use scx_cognis.Base.{
  ℕ, ◌≡◌, refl, sym, ap, ap₂, ◌∙◌, Option, none, some, List, [], ◌∷◌, arith, replicate, length,
}
use scx_cognis.Stats.{Metrics, delta}
use scx_cognis.Stats.Delta.{counters, sums, differences, Later, telescope}

-- The closure `read`: its result, and `prev` after it.
unfoldable pub read_stats : Metrics → Option Metrics → Option Metrics × Metrics
read_stats prev none = (none, prev)
read_stats prev (some cur) = (some (delta cur prev), cur)

-- The reads of a session, from its `prev` on, and the `prev` that they leave.
unfoldable pub session : Metrics → List (Option Metrics) → List (Option Metrics) × Metrics
session prev [] = ([], prev)
session prev (a ∷ answers) =
    let (r, next) = read_stats prev a in let (rs, last) = session next answers in (r ∷ rs, last)

-- The closure `open`: it fails where the first answer does.
unfoldable pub open_stats : List (Option Metrics) → Option (List (Option Metrics) × Metrics)
open_stats [] = none
open_stats (none ∷ answers) = none
open_stats (some prev ∷ answers) = some (session prev answers)

-- No counter goes back from one answer to the next.
abbrev pub Rises : Metrics → List (Option Metrics) → Type 0
Rises prev [] = Unit
Rises prev (none ∷ answers) = Rises prev answers
Rises prev (some cur ∷ answers) = Later (counters cur) (counters prev) × Rises cur answers

-- The sums of the counters that the reads yielded.
abbrev pub totals : List (Option Metrics) → List ℕ
totals [] = replicate 18 0
totals (none ∷ rs) = totals rs
totals (some d ∷ rs) = sums (totals rs) (counters d)

Later-refl : (xs : List ℕ) → Later xs xs
Later-refl [] = tt
Later-refl (x ∷ xs) = (omega arith, Later-refl xs)

Later-trans : (xs ys zs : List ℕ) → Later xs ys → Later ys zs → Later xs zs
Later-trans [] ys zs h k = tt
Later-trans (x ∷ xs) [] zs h k = absurd (omega arith)
Later-trans (x ∷ xs) (y ∷ ys) [] h k = absurd (omega arith)
Later-trans (x ∷ xs) (y ∷ ys) (z ∷ zs) h k = (omega (arith, h.0, k.0), Later-trans xs ys zs h.1 k.1)

differences_self : (xs : List ℕ) → differences xs xs ≡ replicate (length xs) 0
differences_self [] = refl
differences_self (x ∷ xs) = ap₂ (λ d ds. d ∷ ds) (omega arith) (differences_self xs)

session-Later :
    (prev : Metrics) (answers : List (Option Metrics))
    → Rises prev answers
    → Later (counters (session prev answers).1) (counters prev)
unfolding session read_stats
session-Later prev [] h = Later-refl (counters prev)
session-Later prev (none ∷ answers) h = session-Later prev answers h
session-Later prev (some cur ∷ answers) (k, h) =
    Later-trans (counters (session cur answers).1) (counters cur) (counters prev)
      (session-Later cur answers h) k

-- Where no counter goes back over a session, the counters that its reads yield sum up to the
-- difference of the last snapshot that was received to the first, however many reads fail in between.
pub session-totals :
    (prev : Metrics) (answers : List (Option Metrics))
    → Rises prev answers
    → totals (session prev answers).0
      ≡ differences (counters (session prev answers).1) (counters prev)
unfolding session read_stats delta
session-totals prev [] h = sym (differences_self (counters prev))
session-totals prev (none ∷ answers) h = session-totals prev answers h
session-totals prev (some cur ∷ answers) (k, h) =
    let last = counters (session cur answers).1 in
    ap (λ xs. sums xs (counters (delta cur prev))) (session-totals cur answers h)
    ∙ sym (telescope last (counters cur) (counters prev) (session-Later cur answers h) k)
