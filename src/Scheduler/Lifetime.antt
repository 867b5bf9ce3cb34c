-- ===== src/Scheduler/Lifetime.antt =====
-- The life of a request under any calls (crates/glm-scheduler/src/lib.rs).
use glmaxx.Base.{
  ℕ, ◌≡◌, refl, inl, inr, Bool, true, false, List, [], ◌∷◌, none, some, arith, All, Bool-cases,
  Option-cases, sym, subst, ap, ◌∙◌, not, ◌&&◌, is_some,
}
use glmaxx.Base.Maps.{find, insert, find-insert}
use glmaxx.Base.Related.{Related, Related-refl, find-Related}
use glmaxx.Scheduler.Admission.{
  entering, cancel, apply_cancellations, apply_cancellations_at_boundary,
}
use glmaxx.Scheduler.Admission.Preserve.{admit_cases, apply_cancellations-IsValid}
use glmaxx.Scheduler.Advance.{
  Advances, Advances-refl, Advances-trans, apply_cancellations-Related, plan_rows-Moves,
  write_requests-Related,
}
use glmaxx.Scheduler.Batches.{has_state, build_batch, launch, select_batch, next_batch}
use glmaxx.Scheduler.Batches.Equations.{next_busy, next_idle}
use glmaxx.Scheduler.Batches.Preserve.{BuildsBatch, builds, refuses, build_batch-Builds}
use glmaxx.Scheduler.Completion.{
  apply_plan, complete_batch_internal, complete_batch_with_commits, complete_batch_with_results,
}
use glmaxx.Scheduler.Completion.Rows.{plan_batch_rows, complete_cases}
use glmaxx.Scheduler.History.{
  Call, admits, cancels, settles, selects, commits, reports, step, run, IsWordCall, step-IsValid,
}
use glmaxx.Scheduler.Invariant.{IsValid, IsInflight}
use glmaxx.Scheduler.{
  Request, ScheduledBatch, BatchCompletion, Scheduler, Outcome, is_waiting, is_decoding,
}

-- The requests of the second state are those of the first, each moved forward.
abbrev pub Forward : Scheduler → Scheduler → Type 0
Forward s t = Related Advances s.requests t.requests

pub Forward-refl : (s : Scheduler) → Forward s s
Forward-refl s = Related-refl Advances Advances-refl s.requests

launch-requests :
    (s : Scheduler) (o : Outcome ScheduledBatch)
    → BuildsBatch s o
    → (launch o).0.requests ≡ s.requests
unfolding launch
launch-requests s o (refuses e h) = rw h
launch-requests s o (builds b h legal) = rw h

select_batch-requests : (s : Scheduler) → IsValid s → (select_batch s).0.requests ≡ s.requests
unfolding select_batch
select_batch-requests s v =
    elim (Bool-cases (not (has_state s is_waiting) && not (has_state s is_decoding))) [
      | inl idle ↦ rw idle
      | inr work ↦ rw work (launch-requests s (build_batch s) (build_batch-Builds s v))
    ]

pub next_batch-Forward : (s : Scheduler) → IsValid s → Forward s (next_batch s).0
next_batch-Forward s v = elim (Option-cases s.inflight) [
  | inr (b, busy) ↦ subst (λ o. Forward s o.0) (sym (next_busy s b busy)) (Forward-refl s)
  | inl idle ↦
      subst (λ o. Forward s o.0) (sym (next_idle s idle))
        (subst (Related Advances s.requests)
          (sym
            (select_batch-requests (apply_cancellations s) (apply_cancellations-IsValid s idle v)))
          (apply_cancellations-Related s))
]

launch-tenants :
    (s : Scheduler) (o : Outcome ScheduledBatch)
    → BuildsBatch s o
    → (launch o).0.tenants ≡ s.tenants
unfolding launch
launch-tenants s o (refuses e h) = rw h
launch-tenants s o (builds b h legal) = rw h

select_batch-tenants : (s : Scheduler) → IsValid s → (select_batch s).0.tenants ≡ s.tenants
unfolding select_batch
select_batch-tenants s v =
    elim (Bool-cases (not (has_state s is_waiting) && not (has_state s is_decoding))) [
      | inl idle ↦ rw idle
      | inr work ↦ rw work (launch-tenants s (build_batch s) (build_batch-Builds s v))
    ]

pub next_batch-tenants : (s : Scheduler) → IsValid s → (next_batch s).0.tenants ≡ s.tenants
next_batch-tenants s v = elim (Option-cases s.inflight) [
  | inr (b, busy) ↦ ap (λ o. o.0.tenants) (next_busy s b busy)
  | inl idle ↦
      ap (λ o. o.0.tenants) (next_idle s idle)
      ∙ select_batch-tenants (apply_cancellations s) (apply_cancellations-IsValid s idle v)
      ∙ unfold apply_cancellations in refl
]

pub complete-Forward :
    (s : Scheduler) (success : Bool) (completions : List BatchCompletion) (explicit : Bool)
    → IsValid s
    → Forward s (complete_batch_internal s success completions explicit).0
unfolding apply_plan
complete-Forward s success completions explicit v =
    complete_cases (Forward s) s success completions explicit (Forward-refl s) λ b plan busy e.
      let (slots, _, rows) = plan_batch_rows s b success completions explicit plan e in
      let legal = subst (IsInflight s.requests) busy v.inflight in
      write_requests-Related plan.requests s.requests s.requests
        (plan_rows-Moves s b.kind success slots [] b.rows plan legal.rows rows) (Forward-refl s)

pub settle-Forward : (s : Scheduler) → Forward s (apply_cancellations_at_boundary s).0
unfolding apply_cancellations_at_boundary
settle-Forward s = elim (Bool-cases (is_some s.inflight)) [
  | inl busy ↦ rw busy (Forward-refl s)
  | inr idle ↦ rw idle (apply_cancellations-Related s)
]

pub cancel-requests : (s : Scheduler) (id : ℕ) → (cancel s id).0.requests ≡ s.requests
unfolding cancel
cancel-requests s id = ground arith

-- The request of an identifier is there, moved forward.
abbrev pub Kept : ℕ → Request → Scheduler → Type 0
Kept k r t = (q : Request) × (find k t.requests ≡ some q) × Advances r q

insert-Kept :
    (s : Scheduler) (id k : ℕ) (x r : Request)
    → find id s.requests ≡ none
    → find k s.requests ≡ some r
    → Kept k r (record s { requests = insert id x s.requests })
insert-Kept s id k x r new found =
    (r, ground (arith, find-insert k id x s.requests), Advances-refl r)

-- One call keeps every request that is there, and moves it forward.
step-Kept :
    (s : Scheduler) (c : Call) (k : ℕ) (r : Request)
    → IsValid s
    → find k s.requests ≡ some r
    → Kept k r (step s c)
unfolding step complete_batch_with_commits complete_batch_with_results
step-Kept s (admits spec cached) k r v found =
    admit_cases (Kept k r) s spec cached (r, found, Advances-refl r)
      λ valid new known captured. insert-Kept s spec.id k (entering spec cached) r new found
step-Kept s (cancels id) k r v found =
    (r, ap (find k) (cancel-requests s id) ∙ found, Advances-refl r)
step-Kept s settles k r v found = find-Related Advances k s.requests _ (settle-Forward s) found
step-Kept s selects k r v found =
    find-Related Advances k s.requests _ (next_batch-Forward s v) found
step-Kept s (commits success pairs) k r v found =
    find-Related Advances k s.requests _ (complete-Forward s success _ false v) found
step-Kept s (reports success completions) k r v found =
    find-Related Advances k s.requests _ (complete-Forward s success completions true v) found

-- After any calls whose numbers are words, from a well-formed scheduler, a request is still there under
-- its identifier, with the same specification, no less of its prompt done and no fewer tokens
-- generated, and if it had finished, failed or been cancelled it is in that same state.
pub run-Kept :
    (s : Scheduler) (cs : List Call) (k : ℕ) (r : Request)
    → All IsWordCall cs
    → IsValid s
    → find k s.requests ≡ some r
    → Kept k r (run s cs)
unfolding run
run-Kept s [] k r w v found = (r, found, Advances-refl r)
run-Kept s (c ∷ cs) k r w v found =
    let (q, found', a) = step-Kept s c k r v found in
    let (p, found'', b) = run-Kept (step s c) cs k q w.1 (step-IsValid s c w.0 v) found' in
    (p, found'', Advances-trans r q p a b)
