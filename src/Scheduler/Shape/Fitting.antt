-- ===== src/Scheduler/Shape/Fitting.antt =====
-- What it means that a captured graph holds a batch, and the order in which graphs are preferred
-- (crates/glm-scheduler/src/lib.rs, `best_graph` and the count of rows in `finalize_batch`).
use glmaxx.Base.{
  ℕ, ◌+◌, ◌*◌, ◌≤◌, ◌<◌, ◌≡◌, ◌⊎◌, inl, inr, true, false, List, [], ◌∷◌, length, ok, arith,
  Bool-cases, leb, u32_max,
}
use glmaxx.Engine.Graph.{GraphEntry, StepMode, mode_eq, mode_code}
use glmaxx.Engine.Graph.Validity.{mode_eq-eq}
use glmaxx.Scheduler.Shape.{kind_mode, kind_depth, fits, smaller, checked_sum, batch_query_rows}
use glmaxx.Scheduler.{BatchKind, BatchRow}

-- The graph is captured for the mode and the draft depth of the batch, and a prefill graph takes the
-- prompt tokens.
abbrev pub IsOfKind : BatchKind → ℕ → GraphEntry → Type 0
IsOfKind BatchKind.prefill tokens g =
    (g.key.mode ≡ StepMode.prefill) × (g.key.mtp_depth ≡ 0) × (tokens ≤ g.maximum_prompt_tokens)
IsOfKind BatchKind.decode tokens g = (g.key.mode ≡ StepMode.decode) × (g.key.mtp_depth ≡ 0)
IsOfKind (BatchKind.verify depth) tokens g =
    (g.key.mode ≡ StepMode.verify) × (g.key.mtp_depth ≡ depth)

-- A graph that takes the sequences and the query rows of a batch of the kind.
pub record HoldsBatch (kind : BatchKind) (active query_rows : ℕ) (g : GraphEntry) : Type 0 where
  pub of_kind : IsOfKind kind query_rows g
  pub sequences : active ≤ g.maximum_active_sequences
  pub rows : query_rows ≤ g.maximum_query_rows

pub fits→HoldsBatch :
    (kind : BatchKind) (active query_rows : ℕ) (g : GraphEntry)
    → fits kind active query_rows g ≡ true
    → HoldsBatch kind active query_rows g
unfolding fits kind_mode kind_depth
fits→HoldsBatch BatchKind.prefill active query_rows g h =
    ground (arith, mode_eq-eq g.key.mode StepMode.prefill)
fits→HoldsBatch BatchKind.decode active query_rows g h =
    ground (arith, mode_eq-eq g.key.mode StepMode.decode)
fits→HoldsBatch (BatchKind.verify depth) active query_rows g h =
    ground (arith, mode_eq-eq g.key.mode StepMode.verify)

pub HoldsBatch→fits :
    (kind : BatchKind) (active query_rows : ℕ) (g : GraphEntry)
    → HoldsBatch kind active query_rows g
    → fits kind active query_rows g ≡ true
unfolding fits kind_mode kind_depth mode_eq mode_code
HoldsBatch→fits BatchKind.prefill active query_rows g h = ground arith
HoldsBatch→fits BatchKind.decode active query_rows g h = ground arith
HoldsBatch→fits (BatchKind.verify depth) active query_rows g h = ground arith

-- The lexicographic order of lists of numbers.
abbrev pub InOrder : List ℕ → List ℕ → Type 0
InOrder [] bs = Unit {0}
InOrder (a ∷ as') [] = ⊥
InOrder (a ∷ as') (b ∷ bs) = (a < b) ⊎ ((a ≡ b) × InOrder as' bs)

-- What graphs are preferred by, the first part first.
abbrev pub preference : GraphEntry → List ℕ
preference g =
    g.key.sequence_bucket ∷ g.key.verifier_row_bucket ∷ g.maximum_query_rows ∷ g.graph_id ∷ []

pub InOrder-preference :
    (g e : GraphEntry) → smaller e g ≡ false → InOrder (preference g) (preference e)
unfolding smaller
InOrder-preference g e h = ground arith

-- The prompt tokens of all rows.
unfoldable pub prompt_sum : List BatchRow → ℕ
prompt_sum [] = 0
prompt_sum (row ∷ rows) = row.prompt_tokens + prompt_sum rows

-- The query rows that a batch takes: the prompt tokens of a prefill, a row for each sequence of a
-- decode, and a row more than the draft depth for each sequence of a verify.
abbrev pub needed_rows : BatchKind → List BatchRow → ℕ
needed_rows BatchKind.prefill rows = prompt_sum rows
needed_rows BatchKind.decode rows = length rows
needed_rows (BatchKind.verify depth) rows = length rows * (depth + 1)

checked_sum-ok :
    (acc n : ℕ) (rows : List BatchRow) → checked_sum acc rows ≡ ok n → n ≡ acc + prompt_sum rows
unfolding checked_sum prompt_sum
checked_sum-ok acc n [] h = ground arith
checked_sum-ok acc n (row ∷ rows) h = elim (Bool-cases (leb (acc + row.prompt_tokens) u32_max)) [
  | inl room ↦ ground (arith, checked_sum-ok (acc + row.prompt_tokens) n rows (ground arith))
  | inr full ↦ ground arith
]

pub batch_query_rows-needed :
    (kind : BatchKind) (rows : List BatchRow) (n : ℕ)
    → batch_query_rows kind (length rows) rows ≡ ok n
    → n ≡ needed_rows kind rows
unfolding batch_query_rows
batch_query_rows-needed BatchKind.prefill rows n h = omega (arith, checked_sum-ok 0 n rows h)
batch_query_rows-needed BatchKind.decode rows n h = ground arith
batch_query_rows-needed (BatchKind.verify depth) rows n h = ground arith
