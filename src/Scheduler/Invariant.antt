-- ===== src/Scheduler/Invariant.antt =====
-- What holds of a scheduler between two calls: crates/glm-scheduler/src/lib.rs.
use glmaxx.Base.{
  ℕ, ◌+◌, ◌≤◌, ◌<◌, ◌≡◌, true, Option, none, some, length, is_some, All, Distinct, u32_max,
}
use glmaxx.Base.Maps.{Map, find, Entries, Ascending}
use glmaxx.Engine.Graph.{GraphProfile}
use glmaxx.Engine.Graph.Validity.{IsCaptured}
use glmaxx.Scheduler.Admission.{has_graph_for_request}
use glmaxx.Scheduler.{
  RequestSpec, Request, waiting_prefill, decoding, Tenant, BatchKind, BatchRow, ScheduledBatch,
  Scheduler, SchedulerConfig, maximum_batch_rows,
}

pub record IsTenant (k : ℕ) (t : Tenant) : Type 0 where
  pub keyed : t.config.tenant ≡ k
  pub weighted : 0 < t.config.weight
  pub admitting : 0 < t.config.maximum_active_requests

-- A request's progress fits its specification, its tenant is known and its graphs are captured.
pub record IsRequest (profile : GraphProfile) (tenants : Map Tenant) (k : ℕ) (r : Request)
    : Type 0 where
  pub keyed : r.spec.id ≡ k
  pub known : is_some (find r.spec.tenant tenants) ≡ true
  pub captured : has_graph_for_request profile r.spec ≡ true
  pub prompt_word : r.spec.prompt_tokens ≤ u32_max
  pub new_word : r.spec.maximum_new_tokens ≤ u32_max
  pub some_new : 0 < r.spec.maximum_new_tokens
  pub depth : r.spec.mtp_depth ≤ 6
  pub prompt : r.prompt_done ≤ r.spec.prompt_tokens
  pub generated : r.generated ≤ r.spec.maximum_new_tokens
  pub waits : r.state ≡ waiting_prefill → r.prompt_done < r.spec.prompt_tokens
  pub unstarted : r.state ≡ waiting_prefill → r.generated ≡ 0
  pub decodes : r.state ≡ decoding → r.prompt_done ≡ r.spec.prompt_tokens
  pub unfinished : r.state ≡ decoding → r.generated < r.spec.maximum_new_tokens

-- A row that its request can run in a batch of the kind.
abbrev pub Runs : BatchKind → Request → BatchRow → Type 0
Runs BatchKind.prefill r row =
    (r.state ≡ waiting_prefill)
    × (0 < row.prompt_tokens)
    × (r.prompt_done + row.prompt_tokens ≤ r.spec.prompt_tokens)
Runs BatchKind.decode r row = (r.state ≡ decoding) × (row.prompt_tokens ≡ 0)
Runs (BatchKind.verify depth) r row =
    (r.state ≡ decoding)
    × (row.prompt_tokens ≡ 0)
    × (0 < depth)
    × (depth ≤ 6)
    × (r.generated + depth < r.spec.maximum_new_tokens)

pub record IsRow (requests : Map Request) (kind : BatchKind) (row : BatchRow) : Type 0 where
  pub request : Request
  pub found : find row.request_id requests ≡ some request
  pub runs : Runs kind request row

-- The batch in flight has rows for distinct runnable requests.
pub record IsBatch (requests : Map Request) (b : ScheduledBatch) : Type 0 where
  pub some_rows : 0 < length b.rows
  pub row_limit : length b.rows ≤ maximum_batch_rows
  pub distinct : Distinct (λ row. row.request_id) b.rows
  pub rows : All (IsRow requests b.kind) b.rows

abbrev pub IsInflight : Map Request → Option ScheduledBatch → Type 0
IsInflight requests none = Unit
IsInflight requests (some b) = IsBatch requests b

pub record IsConfig (c : SchedulerConfig) : Type 0 where
  pub sequences : 0 < c.maximum_batch_sequences
  pub sequence_limit : c.maximum_batch_sequences ≤ maximum_batch_rows
  pub prefill : 0 < c.maximum_prefill_tokens
  pub prefill_word : c.maximum_prefill_tokens ≤ u32_max
  pub burst : 0 < c.maximum_decode_burst

pub record IsValid (s : Scheduler) : Type 0 where
  pub config : IsConfig s.config
  pub entries : All IsCaptured s.profile.entries
  pub tenants : Entries IsTenant s.tenants
  pub requests : Entries (IsRequest s.profile s.tenants) s.requests
  pub ascending : Ascending 0 s.requests
  pub inflight : IsInflight s.requests s.inflight

-- The numbers of a specification are words of the widths that the code gives them.
pub record IsWordSpec (spec : RequestSpec) : Type 0 where
  pub prompt_word : spec.prompt_tokens ≤ u32_max
  pub new_word : spec.maximum_new_tokens ≤ u32_max
