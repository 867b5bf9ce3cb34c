-- ===== src/Scheduler/History.antt =====
-- The scheduler under any sequence of calls (crates/glm-scheduler/src/lib.rs).
use glmaxx.Base.{ℕ, ◌≤◌, ◌≡◌, Bool, List, [], ◌∷◌, ok, u32_max, All, true, false}
use glmaxx.Engine.Graph.{GraphProfile}
use glmaxx.Scheduler.Admission.{admit_with_prefix, cancel, apply_cancellations_at_boundary, new}
use glmaxx.Scheduler.Admission.Preserve.{
  admit_with_prefix-IsValid, cancel-IsValid, apply_cancellations_at_boundary-IsValid,
}
use glmaxx.Scheduler.Batches.{next_batch}
use glmaxx.Scheduler.Batches.Preserve.{next_batch-IsValid}
use glmaxx.Scheduler.Completion.{complete_batch_with_commits, complete_batch_with_results}
use glmaxx.Scheduler.Completion.Preserve.{complete_batch_internal-IsValid}
use glmaxx.Scheduler.Construction.{new-IsValid}
use glmaxx.Scheduler.Invariant.{IsValid, IsWordSpec}
use glmaxx.Scheduler.{RequestSpec, BatchCompletion, TenantConfig, SchedulerConfig, Scheduler}

-- The public calls that change a scheduler, with their arguments.
pub data Call : Type 0 where
  admits : RequestSpec → ℕ → Call
  cancels : ℕ → Call
  settles : Call
  selects : Call
  commits : Bool → List (ℕ × ℕ) → Call
  reports : Bool → List BatchCompletion → Call

unfoldable pub step : Scheduler → Call → Scheduler
step s (admits spec cached) = (admit_with_prefix s spec cached).0
step s (cancels id) = (cancel s id).0
step s settles = (apply_cancellations_at_boundary s).0
step s selects = (next_batch s).0
step s (commits success pairs) = (complete_batch_with_commits s success pairs).0
step s (reports success completions) = (complete_batch_with_results s success completions).0

unfoldable pub run : Scheduler → List Call → Scheduler
run s [] = s
run s (c ∷ cs) = run (step s c) cs

-- The numbers that a call passes are words.
abbrev pub IsWordCall : Call → Type 0
IsWordCall (admits spec cached) = IsWordSpec spec
IsWordCall _ = Unit {0}

pub step-IsValid : (s : Scheduler) (c : Call) → IsWordCall c → IsValid s → IsValid (step s c)
unfolding step complete_batch_with_commits complete_batch_with_results
step-IsValid s (admits spec cached) w v = admit_with_prefix-IsValid s spec cached w v
step-IsValid s (cancels id) w v = cancel-IsValid s id v
step-IsValid s settles w v = apply_cancellations_at_boundary-IsValid s v
step-IsValid s selects w v = next_batch-IsValid s v
step-IsValid s (commits success pairs) w v = complete_batch_internal-IsValid s success _ false v
step-IsValid s (reports success completions) w v =
    complete_batch_internal-IsValid s success completions true v

run-IsValid : (s : Scheduler) (cs : List Call) → All IsWordCall cs → IsValid s → IsValid (run s cs)
unfolding run
run-IsValid s [] w v = v
run-IsValid s (c ∷ cs) w v = run-IsValid (step s c) cs w.1 (step-IsValid s c w.0 v)

-- After `new` with a prefill budget that is a 32-bit word, and any sequence of calls whose numbers are
-- words, the scheduler is well formed: every request's progress fits its specification and its state,
-- and a batch in flight has at least one and at most 64 rows, of distinct requests that can run them.
pub run-new-IsValid :
    (sha256 : List ℕ → List ℕ) (c : SchedulerConfig) (p : GraphProfile) (ts : List TenantConfig)
    (s : Scheduler) (cs : List Call)
    → c.maximum_prefill_tokens ≤ u32_max
    → new sha256 c p ts ≡ ok s
    → All IsWordCall cs
    → IsValid (run s cs)
run-new-IsValid sha256 c p ts s cs w h words =
    run-IsValid s cs words (new-IsValid sha256 c p ts s w h)
