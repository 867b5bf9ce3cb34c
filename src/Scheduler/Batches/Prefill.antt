-- ===== src/Scheduler/Batches/Prefill.antt =====
-- The rows of a prefill batch (crates/glm-scheduler/src/lib.rs, `build_prefill_batch`).
use glmaxx.Base.{
  ℕ, ◌+◌, ◌-◌, min, ◌≤◌, ◌<◌, ◌≡◌, ◌≢◌, inl, inr, true, List, [], ◌∷◌, none, arith, ◌==◌, length,
  take, All, Distinct, take-All, take-Distinct, length-take-le, ok, Bool-cases, u32_max,
}
use glmaxx.Engine.Graph.{GraphEntry}
use glmaxx.Scheduler.Invariant.{IsRow}
use glmaxx.Scheduler.Order.Eligible.{IsEligible}
use glmaxx.Scheduler.Shape.{checked_sum}
use glmaxx.Scheduler.Batches.{prefill_rows, entry_rows}
use glmaxx.Scheduler.{Request, BatchKind, BatchRow, Scheduler, is_waiting, waiting_prefill}

abbrev pub sum_tokens : List BatchRow → ℕ
sum_tokens [] = 0
sum_tokens (row ∷ rows) = row.prompt_tokens + sum_tokens rows

-- The rows take no more tokens than there are.
prefill_rows-within : (n : ℕ) (rs : List Request) → sum_tokens (prefill_rows n rs) ≤ n
unfolding prefill_rows
prefill_rows-within n [] = omega arith
prefill_rows-within n (r ∷ rs) =
    ground (arith, prefill_rows-within (n - min (r.spec.prompt_tokens - r.prompt_done) n) rs)

length-prefill_rows : (n : ℕ) (rs : List Request) → length (prefill_rows n rs) ≤ length rs
unfolding prefill_rows
length-prefill_rows n [] = omega arith
length-prefill_rows n (r ∷ rs) =
    ground (arith, length-prefill_rows (n - min (r.spec.prompt_tokens - r.prompt_done) n) rs)

prefill_rows-apart :
    (id n : ℕ) (rs : List Request)
    → All (λ r. r.spec.id ≢ id) rs
    → All (λ row. row.request_id ≢ id) (prefill_rows n rs)
unfolding prefill_rows
prefill_rows-apart id n [] h = tt
prefill_rows-apart id n (r ∷ rs) h =
    ground (arith, prefill_rows-apart id (n - min (r.spec.prompt_tokens - r.prompt_done) n) rs h.1)

prefill_rows-Distinct :
    (n : ℕ) (rs : List Request)
    → Distinct (λ r. r.spec.id) rs
    → Distinct (λ row. row.request_id) (prefill_rows n rs)
unfolding prefill_rows
prefill_rows-Distinct n [] d = tt
prefill_rows-Distinct n (r ∷ rs) d =
    let left = n - min (r.spec.prompt_tokens - r.prompt_done) n in
    ground (arith, prefill_rows-apart r.spec.id left rs d.0, prefill_rows-Distinct left rs d.1)

is_waiting-eq : (r : Request) → is_waiting r.state ≡ true → r.state ≡ waiting_prefill
is_waiting-eq r h = ground arith

module _ (s : Scheduler) where
  abbrev Waiting : Request → Type 0
  Waiting = IsEligible s is_waiting none

  Waiting-IsRow :
      (r : Request) (tokens : ℕ)
      → Waiting r
      → 0 < tokens
      → tokens ≤ r.spec.prompt_tokens - r.prompt_done
      → IsRow s.requests BatchKind.prefill
          (record { request_id = r.spec.id; prompt_tokens = tokens })
  Waiting-IsRow r tokens w some_tokens fits = record {
    request = r;
    found = w.found;
    runs = (is_waiting-eq r w.state, some_tokens, omega (arith, w.valid.prompt));
  }

  prefill_rows-IsRow :
      (n : ℕ) (rs : List Request)
      → All Waiting rs
      → All (IsRow s.requests BatchKind.prefill) (prefill_rows n rs)
  unfolding prefill_rows
  prefill_rows-IsRow n [] w = tt
  prefill_rows-IsRow n (r ∷ rs) w =
      let tokens = min (r.spec.prompt_tokens - r.prompt_done) n in
      let rest = prefill_rows-IsRow (n - tokens) rs w.1 in
      elim (Bool-cases (n == 0)) [
        | inl stop ↦ rw stop tt
        | inr go ↦ rw go (elim (Bool-cases (tokens == 0)) [
          | inl skip ↦ rw skip rest
          | inr take_it ↦ rw take_it (Waiting-IsRow r tokens w.0 (ground arith) (omega arith), rest)
        ])
      ]

-- The first waiting request gets a row as long as there are tokens.
pub prefill_rows-some :
    (s : Scheduler) (n : ℕ) (r : Request) (rs : List Request)
    → IsEligible s is_waiting none r
    → 0 < n
    → 0 < sum_tokens (prefill_rows n (r ∷ rs))
unfolding prefill_rows
prefill_rows-some s n r rs w some_tokens = ground (arith, w.valid.waits (is_waiting-eq r w.state))

checked_sum-eq :
    (acc : ℕ) (rows : List BatchRow)
    → acc + sum_tokens rows ≤ u32_max
    → checked_sum acc rows ≡ ok (acc + sum_tokens rows)
unfolding checked_sum
checked_sum-eq acc [] h = ground arith
checked_sum-eq acc (row ∷ rows) h = ground (arith, checked_sum-eq (acc + row.prompt_tokens) rows)

pub checked_sum_zero :
    (rows : List BatchRow) → sum_tokens rows ≤ u32_max → checked_sum 0 rows ≡ ok (sum_tokens rows)
checked_sum_zero rows h = ground (arith, checked_sum-eq 0 rows)

-- What an entry's rows respect: the configured budget, the entry's limits and the sequences of both.
pub record IsEntryRows (s : Scheduler) (e : GraphEntry) (rows : List BatchRow) : Type 0 where
  pub budget : sum_tokens rows ≤ s.config.maximum_prefill_tokens
  pub prompt : sum_tokens rows ≤ e.maximum_prompt_tokens
  pub query : sum_tokens rows ≤ e.maximum_query_rows
  pub sequences : length rows ≤ s.config.maximum_batch_sequences
  pub active : length rows ≤ e.maximum_active_sequences
  pub distinct : Distinct (λ row. row.request_id) rows
  pub runnable : All (IsRow s.requests BatchKind.prefill) rows

pub entry_rows-IsEntryRows :
    (s : Scheduler) (eligible : List Request) (e : GraphEntry)
    → All (IsEligible s is_waiting none) eligible
    → Distinct (λ r. r.spec.id) eligible
    → IsEntryRows s e (entry_rows s eligible e)
unfolding entry_rows
entry_rows-IsEntryRows s eligible e w d =
    let n =
      min (min s.config.maximum_prefill_tokens e.maximum_prompt_tokens) e.maximum_query_rows in
    let m = min s.config.maximum_batch_sequences e.maximum_active_sequences in
    let rs = take m eligible in
    let within = prefill_rows-within n rs in
    let short = length-prefill_rows n rs in
    let taken = length-take-le m eligible in
    record {
      budget = omega arith;
      prompt = omega arith;
      query = omega arith;
      sequences = omega arith;
      active = omega arith;
      distinct = prefill_rows-Distinct n rs (take-Distinct (λ r. r.spec.id) m eligible d);
      runnable = prefill_rows-IsRow s n rs (take-All (IsEligible s is_waiting none) m eligible w);
    }
