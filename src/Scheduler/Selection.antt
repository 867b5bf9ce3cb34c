-- ===== src/Scheduler/Selection.antt =====
-- What `next_batch` selects (crates/glm-scheduler/src/lib.rs).
use glmaxx.Base.{
  ◌+◌, ◌≤◌, ◌<◌, ◌≡◌, refl, inl, inr, Bool, true, false, ◌&&◌, ◌||◌, not, Option, none, some, arith,
  any-mem, ok, err, Bool-cases, Option-cases, Memᴰ, u64_max, sym, subst, ◌∙◌,
}
use glmaxx.Base.Maps.{values}
use glmaxx.Scheduler.Admission.{apply_cancellations}
use glmaxx.Scheduler.Admission.Preserve.{apply_cancellations-IsValid}
use glmaxx.Scheduler.Invariant.{IsValid, IsBatch}
use glmaxx.Scheduler.Batches.Progress.{Succeeds, build_prefill_batch-Succeeds}
use glmaxx.Scheduler.Batches.Decodable.{build_decode_batch-Succeeds}
use glmaxx.Scheduler.Batches.Equations.{next_idle, next_busy}
use glmaxx.Scheduler.Batches.Preserve.{
  BuildsBatch, builds, refuses, build_batch-Builds, build_prefill-kind,
}
use glmaxx.Scheduler.Batches.{
  build_prefill_batch, build_batch, chooses_prefill, has_state, launch, select_batch, next_batch,
}
use glmaxx.Scheduler.{
  BatchKind, RequestState, Request, ScheduledBatch, Scheduler, Outcome, is_waiting, is_decoding,
}

has_state-mem :
    (s : Scheduler) (in_state : RequestState → Bool)
    → has_state s in_state ≡ true
    → (r : Request) × Memᴰ r (values s.requests) × (in_state r.state ≡ true)
unfolding has_state
has_state-mem s in_state h = any-mem (λ r. in_state r.state) (values s.requests) h

prefill_chosen : (s : Scheduler) → chooses_prefill s ≡ true → has_state s is_waiting ≡ true
unfolding chooses_prefill
prefill_chosen s h = ground arith

decode_chosen :
    (s : Scheduler)
    → chooses_prefill s ≡ false
    → (has_state s is_waiting || has_state s is_decoding) ≡ true
    → has_state s is_decoding ≡ true
unfolding chooses_prefill
decode_chosen s h w = ground arith

build_batch-Succeeds :
    (s : Scheduler)
    → IsValid s
    → s.next_step_id < u64_max
    → (has_state s is_waiting || has_state s is_decoding) ≡ true
    → Succeeds (build_batch s)
unfolding build_batch
build_batch-Succeeds s v room work = elim (Bool-cases (chooses_prefill s)) [
  | inl choice ↦
      let (r, m, state) = has_state-mem s is_waiting (prefill_chosen s choice) in
      rw choice (build_prefill_batch-Succeeds s room r v m state)
  | inr other ↦
      let (r, m, state) = has_state-mem s is_decoding (decode_chosen s other work) in
      rw other (build_decode_batch-Succeeds s room r v m state)
]

-- The selected batch is returned and in flight, it is well formed, and nothing but the step
-- identifier changed beside it.
pub record Selects (s : Scheduler) (o : Outcome (Option ScheduledBatch)) : Type 0 where
  pub batch : ScheduledBatch
  pub whole :
      o ≡ (record s { next_step_id = s.next_step_id + 1; inflight = some batch }, ok (some batch))
  pub legal : IsBatch s.requests batch

launched :
    (s : Scheduler) (o : Outcome ScheduledBatch)
    → BuildsBatch s o
    → Succeeds o
    → Selects s (launch o)
unfolding launch
launched s o (refuses e h) (t, b, k) = cc
launched s o (builds b h legal) k = record { batch = b; whole = rw h; legal = legal }

select_batch-Selects :
    (s : Scheduler)
    → IsValid s
    → s.next_step_id < u64_max
    → (has_state s is_waiting || has_state s is_decoding) ≡ true
    → Selects s (select_batch s)
unfolding select_batch
select_batch-Selects s v room work =
    let idle : (not (has_state s is_waiting) && not (has_state s is_decoding)) ≡ false =
      ground arith in
    rw idle
      (launched s (build_batch s) (build_batch-Builds s v) (build_batch-Succeeds s v room work))

-- From a well-formed scheduler with nothing in flight, a step identifier left to give, and a request that
-- waits or decodes once the pending cancellations are applied, `next_batch` applies them, puts a
-- well-formed batch in flight, takes one step identifier, changes nothing else, and returns the batch.
pub next_batch-Selects :
    (s : Scheduler)
    → IsValid s
    → s.inflight ≡ none
    → s.next_step_id < u64_max
    → (has_state (apply_cancellations s) is_waiting
        || has_state (apply_cancellations s) is_decoding)
      ≡ true
    → Selects (apply_cancellations s) (next_batch s)
next_batch-Selects s v idle room work =
    subst (Selects (apply_cancellations s)) (sym (next_idle s idle)) (
      select_batch-Selects (apply_cancellations s) (apply_cancellations-IsValid s idle v)
        (unfold apply_cancellations in room) work)

-- The decode burst is over and a request waits for its prefill.
abbrev pub PrefillDue : Scheduler → Type 0
PrefillDue s = (has_state s is_waiting ≡ true) × (s.config.maximum_decode_burst ≤ s.decode_burst)

due-chooses : (s : Scheduler) → PrefillDue s → chooses_prefill s ≡ true
unfolding chooses_prefill
due-chooses s d = ground arith

launched-kind :
    (s t : Scheduler) (b : ScheduledBatch) (o : Outcome ScheduledBatch)
    → ((t' : Scheduler) (b' : ScheduledBatch) → o ≡ (t', ok b') → b'.kind ≡ BatchKind.prefill)
    → launch o ≡ (t, ok (some b))
    → b.kind ≡ BatchKind.prefill
unfolding launch
launched-kind s t b (t', ok b') f h =
    let same : b' ≡ b = cc in subst (λ x. x.kind ≡ BatchKind.prefill) same (f t' b' refl)
launched-kind s t b (t', err e) f h = cc

selected-kind :
    (s : Scheduler) (t : Scheduler) (b : ScheduledBatch)
    → PrefillDue s
    → select_batch s ≡ (t, ok (some b))
    → b.kind ≡ BatchKind.prefill
unfolding select_batch build_batch
selected-kind s t b d h =
    launched-kind s t b (build_prefill_batch s) (λ t' b'. build_prefill-kind s t' b') h'
  where
    h' : launch (build_prefill_batch s) ≡ (t, ok (some b))
    h' = ground (arith, due-chooses s d)

-- A batch that `next_batch` returns is a prefill if, once the pending cancellations are applied, a
-- request waits for its prefill and the decode burst has reached its maximum.
pub next_batch_prefill :
    (s t : Scheduler) (b : ScheduledBatch)
    → PrefillDue (apply_cancellations s)
    → next_batch s ≡ (t, ok (some b))
    → b.kind ≡ BatchKind.prefill
next_batch_prefill s t b d h = elim (Option-cases s.inflight) [
  | inl idle ↦ selected-kind (apply_cancellations s) t b d (sym (next_idle s idle) ∙ h)
  | inr (x, busy) ↦ let clash = sym (next_busy s x busy) ∙ h in cc
]
