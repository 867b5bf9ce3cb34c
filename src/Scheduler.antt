-- ===== src/Scheduler.antt =====
-- The data of the continuous-batching scheduler: crates/glm-scheduler/src/lib.rs, with the
-- sampling collectives of compile.rs. Words are numbers; the code's checked arithmetic is written
-- out where it stands, and the invariant keeps the rest in range.
pub mod Admission
pub mod Order
pub mod Shape
pub mod Batches
pub mod Completion
pub mod Invariant
pub mod Construction
pub mod Advance
pub mod History
pub mod Lifetime
pub mod Quota
pub mod Selection
pub mod Compile
pub mod Readers
pub mod Dispatch
use glmaxx.Base.{ℕ, Bool, true, false, List, [], Option, none, Result, ◌==◌}
use glmaxx.Base.Maps.{Map}
use glmaxx.Engine.Graph.{GraphProfile}

-- `MAX_ACTIVE_SEQUENCES` of crates/glm-engine/src/step.rs, also the rows of one batch.
abbrev pub maximum_batch_rows : ℕ
maximum_batch_rows = 64

pub data SamplingCollective : Type 0 where
  greedy top_k mass : SamplingCollective

unfoldable pub sampling_eq : SamplingCollective → SamplingCollective → Bool
sampling_eq greedy greedy = true
sampling_eq top_k top_k = true
sampling_eq mass mass = true
sampling_eq _ _ = false

pub record TenantConfig : Type 0 where
  pub tenant : ℕ
  pub weight : ℕ
  pub maximum_active_requests : ℕ

pub record RequestSpec : Type 0 where
  pub id : ℕ
  pub tenant : ℕ
  pub prompt_tokens : ℕ
  pub maximum_new_tokens : ℕ
  pub mtp_depth : ℕ
  pub sampling : SamplingCollective

pub data RequestState : Type 0 where
  waiting_prefill decoding finished cancelled failed : RequestState

abbrev pub is_waiting : RequestState → Bool
is_waiting waiting_prefill = true
is_waiting _ = false

abbrev pub is_decoding : RequestState → Bool
is_decoding decoding = true
is_decoding _ = false

-- `Finished | Cancelled | Failed`.
abbrev pub is_terminal : RequestState → Bool
is_terminal waiting_prefill = false
is_terminal decoding = false
is_terminal _ = true

pub data BatchKind : Type 0 where
  prefill decode : BatchKind
  verify : ℕ → BatchKind

abbrev pub is_prefill : BatchKind → Bool
is_prefill prefill = true
is_prefill _ = false

pub record BatchRow : Type 0 where
  pub request_id : ℕ
  pub prompt_tokens : ℕ

pub record BatchCompletion : Type 0 where
  pub request_id : ℕ
  pub committed_tokens : ℕ
  pub terminal : Bool

pub record ScheduledBatch : Type 0 where
  pub step_id : ℕ
  pub kind : BatchKind
  pub graph_id : ℕ
  pub rows : List BatchRow
  pub query_rows : ℕ
  pub sampling : SamplingCollective

pub record SchedulerConfig : Type 0 where
  pub maximum_batch_sequences : ℕ
  pub maximum_prefill_tokens : ℕ
  pub maximum_decode_burst : ℕ

pub record Request : Type 0 where
  pub spec : RequestSpec
  pub state : RequestState
  pub prompt_done : ℕ
  pub generated : ℕ

pub record Tenant : Type 0 where
  pub config : TenantConfig
  pub service_units : ℕ

pub record Scheduler : Type 0 where
  pub config : SchedulerConfig
  pub profile : GraphProfile
  pub tenants : Map Tenant
  pub requests : Map Request
  pub cancellations : List ℕ
  pub inflight : Option ScheduledBatch
  pub next_step_id : ℕ
  pub decode_burst : ℕ

pub data SchedulerError : Type 0 where
  config_error graph_profile tenant_error tenant_limit request_error unknown_request :
      SchedulerError
  uncaptured_shape no_runnable inflight_error no_inflight commit overflow : SchedulerError

-- A method that may fail returns the state it leaves behind with its result.
abbrev pub Outcome : Type 0 → Type 0
Outcome A = Scheduler × Result SchedulerError A
