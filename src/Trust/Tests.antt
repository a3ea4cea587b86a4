-- ===== src/Trust/Tests.antt =====
-- Examples of the trust table.
use scx_cognis.Base.{
  ℕ, zero, suc, inl, ◌≤◌, ◌≡◌, refl, true, false, List, [], ◌∷◌, arith, replicate, All-replicate,
  get_or, get_or-replicate, set, length-set, ◌∙◌,
}
use scx_cognis.Floats.{zero_lit}
use scx_cognis.Floats.Fixed.{ℤ, fixed_ops, fixed-IsOrdered, fixed-IsRounding}
use scx_cognis.Slots.{table_size, pid_empty}
use scx_cognis.Slots.Index.{IsPid}
use scx_cognis.Slots.Probe.{IsFree}
use scx_cognis.Trust.{TrustTable, ExitObservation, new_table, is_flagged, update_on_exit, shame_max}
use scx_cognis.Trust.Exit.{update_on_exit-IsValid, view-update_self, view-update_room}
use scx_cognis.Trust.Flags.{is_flagged-update_twice}
use scx_cognis.Trust.Lookup.{IsValid, view, exit_entry, new_table-IsValid}
use scx_cognis.Trust.Report.{worst_actors, quarantined_count, count_below}
use scx_cognis.Trust.Score.{InRange, ScoresInRange, update-ScoresInRange}
use scx_cognis.Trust.Watchlist.{all_bad, worst_actors_complete}

abbrev bad_exit : ExitObservation
bad_exit = record {
  slice_underrun = false;
  preempted = true;
  clean_exit = false;
  cheat_flagged = true;
  fork_count = 60;
  involuntary_ctx_sw = 2_000;
}

abbrev good_exit : ExitObservation
good_exit = record {
  slice_underrun = true;
  preempted = false;
  clean_exit = true;
  cheat_flagged = false;
  fork_count = 0;
  involuntary_ctx_sw = 0;
}

abbrev zeroed : TrustTable ℤ
zeroed = new_table fixed_ops

abbrev one_exit : TrustTable ℤ
one_exit = update_on_exit fixed_ops zeroed 7 7 bad_exit (98 ∷ [])

IsPid-7 : IsPid 7
IsPid-7 = omega arith

IsPid-9 : IsPid 9
IsPid-9 = omega arith

one_exit-IsValid : IsValid one_exit
one_exit-IsValid =
    update_on_exit-IsValid fixed_ops zeroed (new_table-IsValid fixed_ops) 7 7 IsPid-7 IsPid-7
      bad_exit (98 ∷ [])

view-update_self_example :
    view fixed_ops (update_on_exit fixed_ops one_exit 9 7 good_exit []) 9
    ≡ exit_entry fixed_ops good_exit (view fixed_ops one_exit 9)
view-update_self_example =
    view-update_self fixed_ops one_exit one_exit-IsValid 9 7 IsPid-9 IsPid-7 good_exit []

IsFree-slot : IsFree (get_or zeroed.pids 12 pid_empty)
unfolding new_table
IsFree-slot = inl (get_or-replicate table_size 12 pid_empty)

view-update_room_example :
    view fixed_ops (update_on_exit fixed_ops zeroed 7 7 bad_exit []) 9 ≡ view fixed_ops zeroed 9
view-update_room_example =
    view-update_room fixed_ops zeroed (new_table-IsValid fixed_ops) 7 7 IsPid-7 IsPid-7 bad_exit []
      9 12 IsPid-9 (omega arith) (omega arith) (omega arith) IsFree-slot

is_flagged-update_twice_example :
    is_flagged fixed_ops
      (update_on_exit fixed_ops (update_on_exit fixed_ops one_exit 9 7 bad_exit []) 9 7 bad_exit [])
      9
    ≡ true
is_flagged-update_twice_example =
    is_flagged-update_twice fixed_ops one_exit 9 7 7 bad_exit bad_exit [] [] one_exit-IsValid
      IsPid-9 IsPid-7 IsPid-7

zeroed-ScoresInRange : ScoresInRange fixed_ops fixed-IsOrdered fixed-IsRounding zeroed
unfolding new_table
zeroed-ScoresInRange =
    All-replicate (InRange fixed_ops fixed-IsOrdered fixed-IsRounding) table_size
      (zero_lit fixed_ops) (record { low = refl; high = refl })

one_exit-ScoresInRange : ScoresInRange fixed_ops fixed-IsOrdered fixed-IsRounding one_exit
one_exit-ScoresInRange =
    update-ScoresInRange fixed_ops fixed-IsOrdered fixed-IsRounding zeroed 7 7 bad_exit (98 ∷ [])
      zeroed-ScoresInRange

update-ScoresInRange_example : ScoresInRange fixed_ops fixed-IsOrdered fixed-IsRounding one_exit
update-ScoresInRange_example =
    update-ScoresInRange fixed_ops fixed-IsOrdered fixed-IsRounding zeroed 7 7 bad_exit (98 ∷ [])
      zeroed-ScoresInRange

count_below-empty :
    (n : ℕ) (scores : List ℤ) → count_below fixed_ops (replicate n pid_empty) scores ≡ 0
unfolding count_below
count_below-empty zero scores = refl
count_below-empty (suc n) [] = refl
count_below-empty (suc n) (x ∷ scores) = count_below-empty n scores

count_below-set :
    (pids : List ℕ) (scores : List ℤ) (i p : ℕ) (x : ℤ)
    → count_below fixed_ops (set pids i p) (set scores i x)
      ≤ suc (count_below fixed_ops pids scores)
unfolding count_below
count_below-set [] scores i p x = omega arith
count_below-set (q ∷ pids) [] i p x = ground arith
count_below-set (q ∷ pids) (y ∷ scores) zero p x = ground arith
count_below-set (q ∷ pids) (y ∷ scores) (suc i) p x =
    ground (arith, count_below-set pids scores i p x)

-- The pid 7 stands at the slot 5, with the score -0.5.
abbrev one_bad : TrustTable ℤ
one_bad = record zeroed {
  pids = set zeroed.pids 5 7;
  scores = set zeroed.scores 5 (fixed_ops.neg_lit 5 1);
}

few_bad : quarantined_count fixed_ops one_bad ≤ shame_max
unfolding quarantined_count new_table
few_bad = omega (
  arith,
  count_below-empty table_size (replicate table_size (zero_lit fixed_ops)),
  count_below-set (replicate table_size pid_empty) (replicate table_size (zero_lit fixed_ops)) 5 7
      (fixed_ops.neg_lit 5 1),
)

worst_actors_complete_example :
    worst_actors fixed_ops one_bad ≡ all_bad fixed_ops one_bad table_size 0
worst_actors_complete_example =
    worst_actors_complete fixed_ops one_bad
      (length-set zeroed.pids 5 7 ∙ (new_table-IsValid fixed_ops).index.sized)
      (length-set zeroed.scores 5 (fixed_ops.neg_lit 5 1)
        ∙ (new_table-IsValid fixed_ops).scores_sized)
      few_bad
