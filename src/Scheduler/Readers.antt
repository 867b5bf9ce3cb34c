-- ===== src/Scheduler/Readers.antt =====
-- What a caller reads of the scheduler: crates/glm-scheduler/src/lib.rs.
use glmaxx.Base.{ℕ, List, map, Option, ◌==◌, find_first}
use mathlib.Core.Option.{map as option_map}
use glmaxx.Base.Maps.{find}
use glmaxx.Engine.Graph.{GraphEntry}
use glmaxx.Scheduler.{RequestState, Request, Scheduler}

pub record RequestProgress : Type 0 where
  pub state : RequestState
  pub prompt_tokens : ℕ
  pub prompt_done : ℕ
  pub maximum_new_tokens : ℕ
  pub generated : ℕ
  pub mtp_depth : ℕ

abbrev pub progress_of : Request → RequestProgress
progress_of r = record {
  state = r.state;
  prompt_tokens = r.spec.prompt_tokens;
  prompt_done = r.prompt_done;
  maximum_new_tokens = r.spec.maximum_new_tokens;
  generated = r.generated;
  mtp_depth = r.spec.mtp_depth;
}

unfoldable pub request_state : Scheduler → ℕ → Option RequestState
request_state s id = option_map (λ r. r.state) (find id s.requests)

unfoldable pub request_progress : Scheduler → ℕ → Option RequestProgress
request_progress s id = option_map progress_of (find id s.requests)

unfoldable pub request_ids : Scheduler → List ℕ
request_ids s = map (λ e. e.0) s.requests

unfoldable pub graph_entry : Scheduler → ℕ → Option GraphEntry
graph_entry s graph_id = find_first (λ e. e.graph_id == graph_id) s.profile.entries
