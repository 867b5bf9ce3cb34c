-- ===== src/Scheduler/Batches/Equations.antt =====
-- The branches of the functions that build batches, as equations (crates/glm-scheduler/src/lib.rs).
use glmaxx.Base.{ℕ, suc, ◌≡◌, List, [], ◌∷◌, map, Option, none, some, arith, length, take, ok, err}
use glmaxx.Scheduler.Admission.{apply_cancellations}
use glmaxx.Scheduler.Order.{ordered_requests, effective_decode_depth}
use glmaxx.Scheduler.Shape.{finalize_batch}
use glmaxx.Scheduler.Batches.{
  best_prefill, build_prefill_batch, build_decode_batch, shrink_batch, build_class_batch,
  decode_row, decode_kind, select_batch, next_batch,
}
use glmaxx.Scheduler.{
  Request, BatchKind, BatchRow, ScheduledBatch, Scheduler, SchedulerError, SamplingCollective,
  greedy, is_waiting, is_decoding, uncaptured_shape, no_runnable, inflight_error, Outcome,
}

module _ (s : Scheduler) where
  abbrev pub PrefillChoice : Option (ℕ × List BatchRow) → Type 0
  PrefillChoice best =
      best_prefill s (ordered_requests s is_waiting none) none s.profile.entries ≡ ok best

  pub build_prefill_none : PrefillChoice none → build_prefill_batch s ≡ (s, err uncaptured_shape)
  unfolding build_prefill_batch
  build_prefill_none e = ground arith

  pub build_prefill_err :
      (x : SchedulerError)
      → best_prefill s (ordered_requests s is_waiting none) none s.profile.entries ≡ err x
      → build_prefill_batch s ≡ (s, err x)
  unfolding build_prefill_batch
  build_prefill_err x e = ground arith

  pub build_prefill_some :
      (q : ℕ) (rows : List BatchRow)
      → PrefillChoice (some (q, rows))
      → build_prefill_batch s ≡ finalize_batch s BatchKind.prefill greedy rows
  unfolding build_prefill_batch
  build_prefill_some q rows e = ground arith

  module _ (kind : BatchKind) (sampling : SamplingCollective) (eligible : List Request)
      (n : ℕ) where
    abbrev pub first_finalized : Outcome ScheduledBatch
    first_finalized = finalize_batch s kind sampling (map decode_row (take (suc n) eligible))

    pub shrink_done :
        (t : Scheduler) (b : ScheduledBatch)
        → first_finalized ≡ (t, ok b)
        → shrink_batch s kind sampling eligible (suc n) ≡ (t, ok b)
    unfolding shrink_batch
    shrink_done t b e = ground arith

    pub shrink_again :
        (t : Scheduler) (x : SchedulerError)
        → first_finalized ≡ (t, err x)
        → shrink_batch s kind sampling eligible (suc n) ≡ shrink_batch s kind sampling eligible n
    unfolding shrink_batch
    shrink_again t x e = ground arith

  -- The requests of a class that one batch may hold.
  abbrev pub class_requests : ℕ → SamplingCollective → List Request
  class_requests depth sampling =
      take s.config.maximum_batch_sequences
        (ordered_requests s is_decoding (some (depth, sampling)))

  pub build_class_ok :
      (first : Request) (depth : ℕ)
      → effective_decode_depth s.profile first ≡ ok depth
      → build_class_batch s first
        ≡ shrink_batch s
            (decode_kind depth)
            first.spec.sampling
            (class_requests depth first.spec.sampling)
            (length (class_requests depth first.spec.sampling))
  unfolding build_class_batch
  build_class_ok first depth e = ground arith

  pub build_class_err :
      (first : Request) (x : SchedulerError)
      → effective_decode_depth s.profile first ≡ err x
      → build_class_batch s first ≡ (s, err x)
  unfolding build_class_batch
  build_class_err first x e = ground arith

  pub build_decode_nil :
      ordered_requests s is_decoding none ≡ [] → build_decode_batch s ≡ (s, err no_runnable)
  unfolding build_decode_batch
  build_decode_nil e = ground arith

  pub build_decode_cons :
      (first : Request) (rs : List Request)
      → ordered_requests s is_decoding none ≡ first ∷ rs
      → build_decode_batch s ≡ build_class_batch s first
  unfolding build_decode_batch
  build_decode_cons first rs e = ground arith

  pub next_busy :
      (b : ScheduledBatch) → s.inflight ≡ some b → next_batch s ≡ (s, err inflight_error)
  unfolding next_batch
  next_busy b e = ground arith

  pub next_idle : s.inflight ≡ none → next_batch s ≡ select_batch (apply_cancellations s)
  unfolding next_batch
  next_idle e = ground arith
