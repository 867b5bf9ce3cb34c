-- ===== src/Scheduler/Batches/Best.antt =====
-- The choice among prefill entries (crates/glm-scheduler/src/lib.rs, `build_prefill_batch`).
use glmaxx.Base.{
  ℕ, suc, ◌-◌, min, ◌≤◌, ◌<◌, ◌≡◌, refl, inl, inr, true, false, ◌&&◌, not, List, [], ◌∷◌, Option,
  none, some, arith, ◌==◌, if◌then◌else◌, take, All, Memᴰ, Distinct, mem-cases, ok, Bool-cases, sym,
  subst, ◌∙◌,
}
use glmaxx.Engine.Graph.{GraphEntry, prefill}
use glmaxx.Engine.Graph.Validity.{IsCaptured, mode_eq-eq}
use glmaxx.Scheduler.Admission.{is_prefill_entry}
use glmaxx.Scheduler.Invariant.{IsValid, IsConfig}
use glmaxx.Scheduler.Order.Eligible.{IsEligible}
use glmaxx.Scheduler.Shape.{checked_sum}
use glmaxx.Scheduler.Batches.Prefill.{
  sum_tokens, checked_sum_zero, IsEntryRows, entry_rows-IsEntryRows, prefill_rows-some,
}
use glmaxx.Scheduler.Batches.{prefill_rows, entry_rows, improves, best_prefill}
use glmaxx.Scheduler.{Request, BatchRow, Scheduler, is_waiting}

-- Rows that a captured prefill entry takes, with some tokens.
pub record IsPrefillRows (s : Scheduler) (rows : List BatchRow) : Type 0 where
  pub some_tokens : 0 < sum_tokens rows
  pub entry : GraphEntry
  pub captured : Memᴰ entry s.profile.entries
  pub mode : is_prefill_entry entry ≡ true
  pub within : IsEntryRows s entry rows

abbrev pub IsBest : Scheduler → Option (ℕ × List BatchRow) → Type 0
IsBest s none = Unit
IsBest s (some (q, rows)) = (q ≡ sum_tokens rows) × IsPrefillRows s rows

abbrev pub best_tokens : Option (ℕ × List BatchRow) → ℕ
best_tokens none = 0
best_tokens (some (q, rows)) = q

-- The best so far after an entry's rows are compared with it.
abbrev better : List BatchRow → Option (ℕ × List BatchRow) → Option (ℕ × List BatchRow)
better rows best =
    if not (sum_tokens rows == 0) && improves (sum_tokens rows) rows best
    then some (sum_tokens rows, rows)
    else best

better-tokens :
    (rows : List BatchRow) (best : Option (ℕ × List BatchRow))
    → (best_tokens best ≤ best_tokens (better rows best))
      × (sum_tokens rows ≤ best_tokens (better rows best))
unfolding improves
better-tokens rows none = ground arith
better-tokens rows (some (q, others)) = ground arith

better-IsBest :
    (s : Scheduler) (rows : List BatchRow) (best : Option (ℕ × List BatchRow))
    → (0 < sum_tokens rows → IsPrefillRows s rows)
    → IsBest s best
    → IsBest s (better rows best)
better-IsBest s rows best new old =
    elim (Bool-cases (not (sum_tokens rows == 0) && improves (sum_tokens rows) rows best)) [
      | inl yes_new ↦ rw yes_new (refl, new (ground arith))
      | inr no_new ↦ rw no_new old
    ]

-- What the loop over the entries returns: rows of one of them, with the most tokens of all.
pub record Choice (s : Scheduler) (eligible : List Request) (best : Option (ℕ × List BatchRow))
    (es : List GraphEntry) : Type 0 where
  pub result : Option (ℕ × List BatchRow)
  pub returned : best_prefill s eligible best es ≡ ok result
  pub legal : IsBest s result
  pub grown : best_tokens best ≤ best_tokens result
  pub most :
      (e : GraphEntry)
      → Memᴰ e es
      → is_prefill_entry e ≡ true
      → sum_tokens (entry_rows s eligible e) ≤ best_tokens result

module _ (s : Scheduler) (v : IsValid s) (eligible : List Request)
    (waiting : All (IsEligible s is_waiting none) eligible)
    (distinct : Distinct (λ r. r.spec.id) eligible) where
  entry_rows-sum :
      (e : GraphEntry)
      → checked_sum 0 (entry_rows s eligible e) ≡ ok (sum_tokens (entry_rows s eligible e))
  entry_rows-sum e =
      let rows = entry_rows-IsEntryRows s eligible e waiting distinct in
      checked_sum_zero (entry_rows s eligible e) (omega (arith, v.config.prefill_word, rows.budget))

  entry_rows-IsPrefillRows :
      (e : GraphEntry)
      → Memᴰ e s.profile.entries
      → is_prefill_entry e ≡ true
      → 0 < sum_tokens (entry_rows s eligible e)
      → IsPrefillRows s (entry_rows s eligible e)
  entry_rows-IsPrefillRows e m mode some_tokens = record {
    some_tokens = some_tokens;
    entry = e;
    captured = m;
    mode = mode;
    within = entry_rows-IsEntryRows s eligible e waiting distinct;
  }

  best_prefill_step :
      (e : GraphEntry) (es : List GraphEntry) (best : Option (ℕ × List BatchRow))
      → is_prefill_entry e ≡ true
      → best_prefill s eligible best (e ∷ es)
        ≡ best_prefill s eligible (better (entry_rows s eligible e) best) es
  unfolding best_prefill
  best_prefill_step e es best mode = rw (mode, entry_rows-sum e)

  best_prefill_skip :
      (e : GraphEntry) (es : List GraphEntry) (best : Option (ℕ × List BatchRow))
      → is_prefill_entry e ≡ false
      → best_prefill s eligible best (e ∷ es) ≡ best_prefill s eligible best es
  unfolding best_prefill
  best_prefill_skip e es best mode = rw mode

  pub best_prefill-Choice :
      (es : List GraphEntry) (best : Option (ℕ × List BatchRow))
      → ((e : GraphEntry) → Memᴰ e es → Memᴰ e s.profile.entries)
      → IsBest s best
      → Choice s eligible best es
  best_prefill-Choice [] best sub legal = record {
    result = best;
    returned = unfold best_prefill in refl;
    legal = legal;
    grown = omega arith;
    most = λ e m. elim m [ ];
  }
  best_prefill-Choice (e ∷ es) best sub legal = elim (Bool-cases (is_prefill_entry e)) [
    | inl mode ↦
        let rows = entry_rows s eligible e in
        let c =
          best_prefill-Choice es (better rows best) (λ x m. sub x (Memᴰ.tail m))
            (better-IsBest s rows best (entry_rows-IsPrefillRows e (sub e (Memᴰ.head refl)) mode)
              legal) in
        let (old, new) = better-tokens rows best in
        record {
          result = c.result;
          returned = best_prefill_step e es best mode ∙ c.returned;
          legal = c.legal;
          grown = omega (arith, c.grown);
          most =
              mem-cases
                (λ x.
                  is_prefill_entry x ≡ true
                  → sum_tokens (entry_rows s eligible x) ≤ best_tokens c.result)
                (λ here. omega (arith, c.grown)) c.most;
        }
    | inr mode ↦
        let c = best_prefill-Choice es best (λ x m. sub x (Memᴰ.tail m)) legal in
        record {
          result = c.result;
          returned = best_prefill_skip e es best mode ∙ c.returned;
          legal = c.legal;
          grown = c.grown;
          most =
              mem-cases
                (λ x.
                  is_prefill_entry x ≡ true
                  → sum_tokens (entry_rows s eligible x) ≤ best_tokens c.result)
                (λ here. ground arith) c.most;
        }
  ]

pub is_prefill_entry-mode : (e : GraphEntry) → is_prefill_entry e ≡ true → e.key.mode ≡ prefill
unfolding is_prefill_entry
is_prefill_entry-mode e h = mode_eq-eq e.key.mode prefill h

-- A captured prefill entry has room for the first waiting request.
pub entry_rows_some :
    (s : Scheduler) (r : Request) (rs : List Request) (e : GraphEntry)
    → IsConfig s.config
    → IsCaptured e
    → is_prefill_entry e ≡ true
    → IsEligible s is_waiting none r
    → 0 < sum_tokens (entry_rows s (r ∷ rs) e)
unfolding entry_rows
entry_rows_some s r rs e c k mode w =
    let n =
      min (min s.config.maximum_prefill_tokens e.maximum_prompt_tokens) e.maximum_query_rows in
    let m = min s.config.maximum_batch_sequences e.maximum_active_sequences in
    let one : m ≡ suc (m - 1) = omega (arith, c.sequences, k.active) in
    subst (λ j. 0 < sum_tokens (prefill_rows n (take j (r ∷ rs)))) (sym one)
      (prefill_rows-some s n r (take (m - 1) rs) w
        (omega (arith, c.prefill, k.prompt (is_prefill_entry-mode e mode), k.query_rows)))
