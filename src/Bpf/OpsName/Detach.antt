-- ===== src/Bpf/OpsName/Detach.antt =====
-- `wait_for_detach` of src/bpf.rs polls the name in sysfs a bounded number of times.
use scx_cognis.Base.{
  ℕ, zero, suc, ◌+◌, ◌*◌, ◌≤◌, ◌<◌, ◌≡◌, refl, ◌∙◌, true, inl, inr, Option, none, some, List, arith,
  Result, Option-cases, Bool-cases, ==→eq, ◌==◌,
}
use mathlib.Core.Path.{subst}
use scx_cognis.Scheduler.Features.{codes, starts_with}
use scx_cognis.Bpf.OpsName.{
  current_root_ops_name, wait_for_detach, detach_poll, detach_wait_timeout, detach_wait_poll,
}

-- The name that sysfs holds at a poll is one of this scheduler's.
abbrev pub IsAttached : Option (List ℕ) → Type 0
IsAttached none = ⊥
IsAttached (some name) = starts_with (codes "cognis_") name ≡ true

-- The answer of a poll: the name once the time is over, or nothing once it is no longer there.
pub data IsAnswer (name answer : Option (List ℕ)) (elapsed : ℕ) : Type 0 where
  timed_out :
      IsAttached name → answer ≡ name → detach_wait_timeout ≤ elapsed → IsAnswer name answer elapsed
  gone : ¬ IsAttached name → answer ≡ none → IsAnswer name answer elapsed

detach_poll-none :
    (name : Option (List ℕ)) (elapsed : ℕ)
    → detach_poll name elapsed ≡ none
    → IsAttached name × (elapsed < detach_wait_timeout)
detach_poll-none none elapsed e = absurd (ground arith)
detach_poll-none (some name) elapsed e = (ground arith, ground arith)

detach_poll-IsAnswer :
    (name answer : Option (List ℕ)) (elapsed : ℕ)
    → detach_poll name elapsed ≡ some answer
    → IsAnswer name answer elapsed
detach_poll-IsAnswer none answer elapsed e = gone (λ a. a) (ground arith)
detach_poll-IsAnswer (some name) answer elapsed e =
    elim (Bool-cases (starts_with (codes "cognis_") name)) [
      | inl there ↦ timed_out there (ground arith) (ground arith)
      | inr other ↦ gone (λ a. ground arith) (ground arith)
    ]

-- What holds at `k` and at each later poll before `last`.
at_or_after :
    (P : ℕ → Type 0) (k last : ℕ)
    → P k
    → ((j : ℕ) → k + 1 ≤ j → j < last → P j)
    → (j : ℕ) → k ≤ j
    → j < last
    → P j
at_or_after P k last p later j a b = elim (Bool-cases (k == j)) [
  | inl here ↦ subst P (==→eq k j here) p
  | inr after ↦ later j (ground arith) b
]

-- A wait from poll `k` on that ends at poll `last`, the name being there until then.
pub record Waited (reads : ℕ → Result (List ℕ) ℕ) (elapsed : ℕ → ℕ) (k : ℕ)
    (r : Option (Option (List ℕ))) : Type 0 where
  pub last : ℕ
  pub answer : Option (List ℕ)
  pub from : k ≤ last
  pub returns : r ≡ some answer
  pub right : IsAnswer (current_root_ops_name (reads last)) answer (elapsed last)
  pub before : (j : ℕ) → k ≤ j → j < last → IsAttached (current_root_ops_name (reads j))
  pub in_time : (j : ℕ) → k ≤ j → j < last → elapsed j < detach_wait_timeout

module _ (reads : ℕ → Result (List ℕ) ℕ) (elapsed : ℕ → ℕ) where
  wait-answer :
      (k fuel : ℕ) (answer : Option (List ℕ))
      → detach_poll (current_root_ops_name (reads k)) (elapsed k) ≡ some answer
      → wait_for_detach reads elapsed k (suc fuel) ≡ some answer
  unfolding wait_for_detach
  wait-answer k fuel answer e = rw (e, wait_for_detach) refl

  wait-again :
      (k fuel : ℕ)
      → detach_poll (current_root_ops_name (reads k)) (elapsed k) ≡ none
      → wait_for_detach reads elapsed k (suc fuel) ≡ wait_for_detach reads elapsed (k + 1) fuel
  unfolding wait_for_detach
  wait-again k fuel e = rw (e, wait_for_detach) refl

  wait-Waited :
      (fuel k : ℕ)
      → ((j : ℕ) → j * detach_wait_poll ≤ elapsed j)
      → 50 < k + fuel
      → k ≤ 50
      → Waited reads elapsed k (wait_for_detach reads elapsed k fuel)
  wait-Waited zero k slept h top = absurd (omega arith)
  wait-Waited (suc fuel) k slept h top =
      elim (Option-cases (detach_poll (current_root_ops_name (reads k)) (elapsed k))) [
        | inl again ↦
            let (there, early) =
              detach_poll-none (current_root_ops_name (reads k)) (elapsed k) again in
            let rest = wait-Waited fuel (k + 1) slept (omega arith) (omega (arith, slept k)) in
            record {
              last = rest.last;
              answer = rest.answer;
              from = omega (arith, rest.from);
              returns = wait-again k fuel again ∙ rest.returns;
              right = rest.right;
              before =
                  at_or_after (λ j. IsAttached (current_root_ops_name (reads j))) k rest.last there
                    rest.before;
              in_time =
                  at_or_after (λ j. elapsed j < detach_wait_timeout) k rest.last early rest.in_time;
            }
        | inr (answer, e) ↦ record {
          last = k;
          answer = answer;
          from = omega arith;
          returns = wait-answer k fuel answer e;
          right = detach_poll-IsAnswer (current_root_ops_name (reads k)) answer (elapsed k) e;
          before = λ j a b. absurd (omega arith);
          in_time = λ j a b. absurd (omega arith);
        }
      ]

  -- When each sleep lasts at least as long as it is asked for, `wait_for_detach` ends within 51
  -- polls. Before its last poll sysfs holds a name that starts with `cognis_` and less than 500 ms
  -- have passed; at that poll either the name is still there, 500 ms have passed and it is
  -- returned, or it is not there and nothing is returned.
  pub wait_for_detach-Waited :
      ((j : ℕ) → j * detach_wait_poll ≤ elapsed j)
      → Waited reads elapsed 0 (wait_for_detach reads elapsed 0 51)
  wait_for_detach-Waited slept = wait-Waited 51 0 slept (omega arith) (omega arith)
