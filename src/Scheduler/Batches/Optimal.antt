-- ===== src/Scheduler/Batches/Optimal.antt =====
-- The prefill batch takes as many prompt tokens as any captured graph lets it
-- (crates/glm-scheduler/src/lib.rs, `build_prefill_batch`).
use glmaxx.Base.{
  ℕ, ◌+◌, ◌-◌, ◌≤◌, ◌≡◌, min, inl, inr, true, List, [], ◌∷◌, Option, none, some, take, ok, Memᴰ,
  arith, sym, ap, ◌∙◌,
}
use glmaxx.Engine.Graph.{GraphEntry}
use glmaxx.Scheduler.Admission.{is_prefill_entry}
use glmaxx.Scheduler.Batches.{prefill_rows, entry_rows, best_prefill, build_prefill_batch}
use glmaxx.Scheduler.Batches.Best.{Choice, IsBest, best_tokens, best_prefill-Choice}
use glmaxx.Scheduler.Batches.Equations.{build_prefill_none, build_prefill_some}
use glmaxx.Scheduler.Batches.Prefill.{sum_tokens, checked_sum_zero}
use glmaxx.Scheduler.Invariant.{IsValid}
use glmaxx.Scheduler.Order.{ordered_requests}
use glmaxx.Scheduler.Order.Eligible.{ordered_requests-IsEligible, ordered_requests-Distinct}
use glmaxx.Scheduler.Shape.{finalize_batch, batch_query_rows, checked_sum}
use glmaxx.Scheduler.Shape.Choice.{finalize_cases, shape_batch-IsShaped}
use glmaxx.Scheduler.{BatchKind, BatchRow, Request, ScheduledBatch, Scheduler, greedy, is_waiting}

-- The prompt tokens that requests have left.
abbrev pub remaining_tokens : List Request → ℕ
remaining_tokens [] = 0
remaining_tokens (r ∷ rs) = (r.spec.prompt_tokens - r.prompt_done) + remaining_tokens rs

prefill_rows-sum :
    (available : ℕ) (rs : List Request)
    → sum_tokens (prefill_rows available rs) ≡ min available (remaining_tokens rs)
unfolding prefill_rows
prefill_rows-sum available [] = ground arith
prefill_rows-sum available (r ∷ rs) =
    ground (
      arith,
      prefill_rows-sum (available - min (r.spec.prompt_tokens - r.prompt_done) available) rs,
    )

-- The prompt tokens that an entry's graph can take of the requests in their order.
abbrev pub entry_tokens : Scheduler → GraphEntry → ℕ
entry_tokens s e =
    min (min s.config.maximum_prefill_tokens (min e.maximum_prompt_tokens e.maximum_query_rows)) (
      remaining_tokens (
        take (min s.config.maximum_batch_sequences e.maximum_active_sequences)
          (ordered_requests s is_waiting none)))

entry_rows-sum :
    (s : Scheduler) (e : GraphEntry)
    → sum_tokens (entry_rows s (ordered_requests s is_waiting none) e) ≡ entry_tokens s e
unfolding entry_rows
entry_rows-sum s e = omega (
  arith,
  prefill_rows-sum
      (min (min s.config.maximum_prefill_tokens e.maximum_prompt_tokens) e.maximum_query_rows)
      (take (min s.config.maximum_batch_sequences e.maximum_active_sequences)
        (ordered_requests s is_waiting none)),
)

-- The query rows of a prefill batch are the tokens of its rows.
finalized-query_rows :
    (s t : Scheduler) (rows : List BatchRow) (b : ScheduledBatch)
    → checked_sum 0 rows ≡ ok (sum_tokens rows)
    → finalize_batch s BatchKind.prefill greedy rows ≡ (t, ok b)
    → b.query_rows ≡ sum_tokens rows
unfolding batch_query_rows
finalized-query_rows s t rows b total h = elim (finalize_cases s BatchKind.prefill greedy rows) [
  | inl (x, refused) ↦ let clash = sym refused ∙ h in cc
  | inr (b', shape, built) ↦
      let both = sym built ∙ h in
      let same : b' ≡ b = cc in
      let k = shape_batch-IsShaped s BatchKind.prefill greedy rows b' shape in
      let counted : k.query_rows ≡ sum_tokens rows = let two = sym k.counted ∙ total in cc in
      sym (ap (λ x. x.query_rows) same) ∙ ap (λ x. x.query_rows) k.whole ∙ counted
]

-- In a well-formed scheduler, a batch that `build_prefill_batch` returns has at least as many query
-- rows as any captured prefill graph could take: the least of the prefill budget, the graph's prompt
-- tokens and query rows, and the tokens left of the waiting requests that come first in the order, as
-- many requests as the batch and the graph may hold.
pub build_prefill_batch_most :
    (s t : Scheduler) (b : ScheduledBatch) (e : GraphEntry)
    → IsValid s
    → build_prefill_batch s ≡ (t, ok b)
    → Memᴰ e s.profile.entries
    → is_prefill_entry e ≡ true
    → entry_tokens s e ≤ b.query_rows
build_prefill_batch_most s t b e v h m mode =
    from_choice choice.result choice.returned choice.legal (choice.most e m mode)
  where
    eligible : List Request
    eligible = ordered_requests s is_waiting none

    choice : Choice s eligible none s.profile.entries
    choice =
        best_prefill-Choice s v eligible (ordered_requests-IsEligible s v is_waiting none)
          (ordered_requests-Distinct s v is_waiting none) s.profile.entries none (λ e m. m) tt

    from_choice :
        (best : Option (ℕ × List BatchRow))
        → best_prefill s eligible none s.profile.entries ≡ ok best
        → IsBest s best
        → sum_tokens (entry_rows s eligible e) ≤ best_tokens best
        → entry_tokens s e ≤ b.query_rows
    from_choice none found legal most = let clash = sym (build_prefill_none s found) ∙ h in cc
    from_choice (some (q, rows)) found legal most =
        let word =
          checked_sum_zero rows (omega (arith, legal.1.within.budget, v.config.prefill_word)) in
        let total =
          finalized-query_rows s t rows b word (sym (build_prefill_some s q rows found) ∙ h) in
        omega (arith, entry_rows-sum s e, total, legal.0, most)
