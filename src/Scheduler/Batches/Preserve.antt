-- ===== src/Scheduler/Batches/Preserve.antt =====
-- Every batch that is built is well formed (crates/glm-scheduler/src/lib.rs, `next_batch`).
use glmaxx.Base.{
  ℕ, suc, ◌+◌, ◌≤◌, ◌<◌, ◌≡◌, refl, inl, inr, ◌&&◌, not, List, [], ◌∷◌, map, Option, none, some,
  arith, length, take, All, Distinct, take-All, take-Distinct, length-take-le, length-take-min,
  length-map, zero, Result, ok, err, Bool-cases, Option-cases, Result-cases, sym, subst, ap, ◌∙◌,
}
use glmaxx.Scheduler.Admission.{apply_cancellations}
use glmaxx.Scheduler.Admission.Preserve.{apply_cancellations-IsValid}
use glmaxx.Scheduler.Invariant.{IsValid, IsConfig, IsBatch, IsRow}
use glmaxx.Scheduler.Order.{ordered_requests, effective_decode_depth}
use glmaxx.Scheduler.Order.Eligible.{ordered_requests-IsEligible, ordered_requests-Distinct}
use glmaxx.Scheduler.Shape.{finalize_batch}
use glmaxx.Scheduler.Shape.Choice.{IsShaped, shape_batch-IsShaped, finalize_cases}
use glmaxx.Scheduler.Batches.Prefill.{sum_tokens}
use glmaxx.Scheduler.Batches.Best.{IsBest, IsPrefillRows, Choice, best_prefill-Choice}
use glmaxx.Scheduler.Batches.Equations.{
  build_prefill_err, build_prefill_none, build_prefill_some, shrink_done, shrink_again,
  build_class_ok, build_class_err, build_decode_nil, build_decode_cons, next_busy, next_idle,
}
use glmaxx.Scheduler.Batches.Decode.{DecodeClass, rows-All, rows-Distinct}
use glmaxx.Scheduler.Batches.{
  best_prefill, build_prefill_batch, build_decode_batch, shrink_batch, build_class_batch,
  decode_row, decode_kind, build_batch, chooses_prefill, launch, has_state, select_batch,
  next_batch,
}
use glmaxx.Scheduler.{
  Request, BatchKind, BatchRow, ScheduledBatch, Scheduler, SchedulerError, SamplingCollective,
  greedy, Outcome, is_waiting, is_decoding, maximum_batch_rows, uncaptured_shape, no_runnable,
}

-- A build refuses and changes nothing, or takes a step identifier for a batch of the property.
pub data Builds (s : Scheduler) (P : ScheduledBatch → Type 0) (o : Outcome ScheduledBatch)
    : Type 0 where
  refuses : (e : SchedulerError) → o ≡ (s, err e) → Builds s P o
  builds :
      (b : ScheduledBatch)
      → o ≡ (record s { next_step_id = s.next_step_id + 1 }, ok b)
      → P b
      → Builds s P o

pub sum_tokens-length : (rows : List BatchRow) → 0 < sum_tokens rows → 0 < length rows
sum_tokens-length [] h = omega arith
sum_tokens-length (row ∷ rows) h = omega arith

-- The batch that finalizing makes of rows has those rows, and its kind.
pub finalize-Builds :
    (s : Scheduler) (kind : BatchKind) (sampling : SamplingCollective) (rows : List BatchRow)
    (P : ScheduledBatch → Type 0)
    → ((b : ScheduledBatch) → IsShaped s kind sampling rows b → P b)
    → Builds s P (finalize_batch s kind sampling rows)
finalize-Builds s kind sampling rows P f = elim (finalize_cases s kind sampling rows) [
  | inl (e, refused) ↦ refuses e refused
  | inr (b, shape, built) ↦ builds b built (f b (shape_batch-IsShaped s kind sampling rows b shape))
]

-- Rows that can run in a batch of the kind, few enough and of distinct requests.
pub record IsBatchRows (s : Scheduler) (kind : BatchKind) (rows : List BatchRow) : Type 0 where
  pub row_limit : length rows ≤ maximum_batch_rows
  pub distinct : Distinct (λ row. row.request_id) rows
  pub runnable : All (IsRow s.requests kind) rows

shaped-IsBatch :
    (s : Scheduler) (kind : BatchKind) (sampling : SamplingCollective) (rows : List BatchRow)
    (b : ScheduledBatch)
    → IsBatchRows s kind rows
    → IsShaped s kind sampling rows b
    → IsBatch s.requests b
shaped-IsBatch s kind sampling rows b r h = subst (IsBatch s.requests) (sym h.whole) (record {
  some_rows = h.some_rows;
  row_limit = r.row_limit;
  distinct = r.distinct;
  rows = r.runnable;
})

abbrev pub BuildsBatch : Scheduler → Outcome ScheduledBatch → Type 0
BuildsBatch s = Builds s (IsBatch s.requests)

finalize_rows :
    (s : Scheduler) (kind : BatchKind) (sampling : SamplingCollective) (rows : List BatchRow)
    → IsBatchRows s kind rows
    → BuildsBatch s (finalize_batch s kind sampling rows)
finalize_rows s kind sampling rows r =
    finalize-Builds s kind sampling rows (IsBatch s.requests)
      λ b. shaped-IsBatch s kind sampling rows b r

prefill-IsBatchRows :
    (s : Scheduler) (rows : List BatchRow)
    → IsConfig s.config
    → IsPrefillRows s rows
    → IsBatchRows s BatchKind.prefill rows
prefill-IsBatchRows s rows c r = record {
  row_limit = omega (arith, r.within.sequences, c.sequence_limit);
  distinct = r.within.distinct;
  runnable = r.within.runnable;
}

pub build_prefill_batch-Builds : (s : Scheduler) → IsValid s → BuildsBatch s (build_prefill_batch s)
build_prefill_batch-Builds s v = from_choice choice.result choice.returned choice.legal
  where
    eligible : List Request
    eligible = ordered_requests s is_waiting none

    choice : Choice s eligible none s.profile.entries
    choice =
        best_prefill-Choice s v eligible (ordered_requests-IsEligible s v is_waiting none)
          (ordered_requests-Distinct s v is_waiting none) s.profile.entries none (λ e m. m) tt

    from_choice :
        (best : Option (ℕ × List BatchRow))
        → best_prefill s eligible none s.profile.entries ≡ ok best
        → IsBest s best
        → BuildsBatch s (build_prefill_batch s)
    from_choice none e legal = refuses uncaptured_shape (build_prefill_none s e)
    from_choice (some (q, rows)) e legal =
        subst (BuildsBatch s) (sym (build_prefill_some s q rows e)) (
          finalize_rows s BatchKind.prefill greedy rows
            (prefill-IsBatchRows s rows v.config legal.1))

-- A batch that the prefill builder returns is a prefill batch.
pub build_prefill-kind :
    (s t : Scheduler) (b : ScheduledBatch)
    → build_prefill_batch s ≡ (t, ok b)
    → b.kind ≡ BatchKind.prefill
build_prefill-kind s t b h = from_choice _ refl
  where
    finalized-kind :
        (rows : List BatchRow)
        → finalize_batch s BatchKind.prefill greedy rows ≡ (t, ok b)
        → b.kind ≡ BatchKind.prefill
    finalized-kind rows e = elim (finalize_cases s BatchKind.prefill greedy rows) [
      | inl (x, refused) ↦ let clash = sym refused ∙ e in cc
      | inr (b', shape, built) ↦
          let both = sym built ∙ e in
          let same : b' ≡ b = cc in
          let whole = (shape_batch-IsShaped s BatchKind.prefill greedy rows b' shape).whole in
          sym (ap (λ x. x.kind) same) ∙ ap (λ x. x.kind) whole
    ]

    from_choice :
        (r : Result SchedulerError (Option (ℕ × List BatchRow)))
        → best_prefill s (ordered_requests s is_waiting none) none s.profile.entries ≡ r
        → b.kind ≡ BatchKind.prefill
    from_choice (err x) e = let clash = sym (build_prefill_err s x e) ∙ h in cc
    from_choice (ok none) e = let clash = sym (build_prefill_none s e) ∙ h in cc
    from_choice (ok (some (q, rows))) e =
        finalized-kind rows (sym (build_prefill_some s q rows e) ∙ h)

decode-IsBatchRows :
    (s : Scheduler) (depth : ℕ) (sampling : SamplingCollective) (rs : List Request)
    → length rs ≤ maximum_batch_rows
    → All (DecodeClass s depth sampling) rs
    → Distinct (λ r. r.spec.id) rs
    → IsBatchRows s (decode_kind depth) (map decode_row rs)
decode-IsBatchRows s depth sampling rs few c d = record {
  row_limit = omega (arith, length-map decode_row rs);
  distinct = rows-Distinct rs d;
  runnable = rows-All s depth sampling rs c;
}

module _ (s : Scheduler) (depth : ℕ) (sampling : SamplingCollective) (eligible : List Request)
    (few : length eligible ≤ maximum_batch_rows) (c : All (DecodeClass s depth sampling) eligible)
    (d : Distinct (λ r. r.spec.id) eligible) where
  abbrev first_rows : ℕ → List BatchRow
  first_rows n = map decode_row (take n eligible)

  first-IsBatchRows : (n : ℕ) → IsBatchRows s (decode_kind depth) (first_rows n)
  first-IsBatchRows n =
      decode-IsBatchRows s depth sampling (take n eligible)
        (omega (arith, length-take-min n eligible))
        (take-All (DecodeClass s depth sampling) n eligible c)
        (take-Distinct (λ r. r.spec.id) n eligible d)

  shrink_batch-Builds :
      (n : ℕ) → BuildsBatch s (shrink_batch s (decode_kind depth) sampling eligible n)
  unfolding shrink_batch
  shrink_batch-Builds zero = refuses uncaptured_shape refl
  shrink_batch-Builds (suc n) =
      elim (finalize_rows s (decode_kind depth) sampling (first_rows (suc n))
        (first-IsBatchRows (suc n))) [
          | refuses e refused ↦
              subst (BuildsBatch s)
                (sym (shrink_again s (decode_kind depth) sampling eligible n s e refused))
                (shrink_batch-Builds n)
          | builds b built legal ↦
              builds b (shrink_done s (decode_kind depth) sampling eligible n _ b built) legal
        ]

build_class_batch-Builds :
    (s : Scheduler) (first : Request) → IsValid s → BuildsBatch s (build_class_batch s first)
build_class_batch-Builds s first v = elim (Result-cases (effective_decode_depth s.profile first)) [
  | inr (e, refused) ↦ refuses e (build_class_err s first e refused)
  | inl (depth, e) ↦
      let ordered = ordered_requests s is_decoding (some (depth, first.spec.sampling)) in
      let n = s.config.maximum_batch_sequences in
      subst (BuildsBatch s) (sym (build_class_ok s first depth e)) (
        shrink_batch-Builds s depth first.spec.sampling (take n ordered)
          (omega (arith, length-take-le n ordered, v.config.sequence_limit))
          (take-All (DecodeClass s depth first.spec.sampling) n ordered
            (ordered_requests-IsEligible s v is_decoding (some (depth, first.spec.sampling))))
          (take-Distinct (λ r. r.spec.id) n ordered
            (ordered_requests-Distinct s v is_decoding (some (depth, first.spec.sampling))))
          (length (take n ordered)))
]

pub build_decode_batch-Builds : (s : Scheduler) → IsValid s → BuildsBatch s (build_decode_batch s)
build_decode_batch-Builds s v = from_list (ordered_requests s is_decoding none) refl
  where
    from_list :
        (rs : List Request)
        → ordered_requests s is_decoding none ≡ rs
        → BuildsBatch s (build_decode_batch s)
    from_list [] e = refuses no_runnable (build_decode_nil s e)
    from_list (first ∷ rs) e =
        subst (BuildsBatch s) (sym (build_decode_cons s first rs e))
          (build_class_batch-Builds s first v)

pub build_batch-Builds : (s : Scheduler) → IsValid s → BuildsBatch s (build_batch s)
unfolding build_batch
build_batch-Builds s v = elim (Bool-cases (chooses_prefill s)) [
  | inl choice ↦ rw choice (build_prefill_batch-Builds s v)
  | inr other ↦ rw other (build_decode_batch-Builds s v)
]

launch-IsValid :
    (s : Scheduler) (o : Outcome ScheduledBatch)
    → IsValid s
    → BuildsBatch s o
    → IsValid (launch o).0
unfolding launch
launch-IsValid s o v (refuses e h) = rw h v
launch-IsValid s o v (builds b h legal) = rw h (record {
  config = v.config;
  entries = v.entries;
  tenants = v.tenants;
  requests = v.requests;
  ascending = v.ascending;
  inflight = legal;
})

select_batch-IsValid : (s : Scheduler) → IsValid s → IsValid (select_batch s).0
unfolding select_batch
select_batch-IsValid s v =
    elim (Bool-cases (not (has_state s is_waiting) && not (has_state s is_decoding))) [
      | inl idle ↦ rw idle v
      | inr work ↦ rw work (launch-IsValid s (build_batch s) v (build_batch-Builds s v))
    ]

pub next_batch-IsValid : (s : Scheduler) → IsValid s → IsValid (next_batch s).0
next_batch-IsValid s v = elim (Option-cases s.inflight) [
  | inr (b, busy) ↦ subst (λ o. IsValid o.0) (sym (next_busy s b busy)) v
  | inl idle ↦
      subst (λ o. IsValid o.0) (sym (next_idle s idle))
        (select_batch-IsValid (apply_cancellations s) (apply_cancellations-IsValid s idle v))
]
