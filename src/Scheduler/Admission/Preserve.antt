-- ===== src/Scheduler/Admission/Preserve.antt =====
-- Construction, admission and cancellation keep the invariant.
use glmaxx.Base.{
  ℕ, ◌≡◌, ◌≢◌, inl, inr, true, List, [], ◌∷◌, Option, none, some, arith, All-mono, is_some,
  Option-cases,
}
use glmaxx.Base.Maps.{
  Map, find, insert, adjust, Entries, find-insert, insert-Entries, adjust-Entries,
  insert_zero-Ascending, adjust-Ascending, Ascending,
}
use glmaxx.Engine.Graph.{GraphProfile}
use glmaxx.Scheduler.Admission.{
  spec_valid, has_graph_for_request, entering, admit_with_prefix, cancel, cancelled_state,
  cancel_request, cancel_all, apply_cancellations, apply_cancellations_at_boundary,
}
use glmaxx.Scheduler.Invariant.{IsRequest, IsRow, IsInflight, IsValid, IsWordSpec}
use glmaxx.Scheduler.{
  RequestSpec, Request, RequestState, waiting_prefill, decoding, Tenant, BatchKind, BatchRow,
  ScheduledBatch, Scheduler,
}

entering-IsRequest :
    (profile : GraphProfile) (tenants : Map Tenant) (spec : RequestSpec) (cached : ℕ)
    → IsWordSpec spec
    → spec_valid spec cached ≡ true
    → is_some (find spec.tenant tenants) ≡ true
    → has_graph_for_request profile spec ≡ true
    → IsRequest profile tenants spec.id (entering spec cached)
unfolding spec_valid entering
entering-IsRequest profile tenants spec cached w v known captured = ground arith

-- A request that is not there yet leaves the rows in flight as they are.
insert-IsRow :
    (id : ℕ) (r : Request) (requests : Map Request) (kind : BatchKind) (row : BatchRow)
    → find id requests ≡ none
    → IsRow requests kind row
    → IsRow (insert id r requests) kind row
insert-IsRow id r requests kind row new v = record {
  request = v.request;
  found = ground (arith, find-insert row.request_id id r requests, v.found);
  runs = v.runs;
}

insert-IsInflight :
    (id : ℕ) (r : Request) (requests : Map Request) (b : Option ScheduledBatch)
    → find id requests ≡ none
    → IsInflight requests b
    → IsInflight (insert id r requests) b
insert-IsInflight id r requests none new v = tt
insert-IsInflight id r requests (some b) new v = record {
  some_rows = v.some_rows;
  row_limit = v.row_limit;
  distinct = v.distinct;
  rows =
      All-mono {Q = IsRow (insert id r requests) b.kind}
        (λ row. insert-IsRow id r requests b.kind row new) b.rows v.rows;
}

-- What admission does, on every branch.
pub admit_cases :
    (P : Scheduler → Type 0) (s : Scheduler) (spec : RequestSpec) (cached : ℕ)
    → P s
    → (spec_valid spec cached ≡ true
        → find spec.id s.requests ≡ none
        → is_some (find spec.tenant s.tenants) ≡ true
        → has_graph_for_request s.profile spec ≡ true
        → P (record s { requests = insert spec.id (entering spec cached) s.requests }))
    → P (admit_with_prefix s spec cached).0
unfolding admit_with_prefix
admit_cases P s spec cached refused admitted = ground arith

pub admit_with_prefix-IsValid :
    (s : Scheduler) (spec : RequestSpec) (cached : ℕ)
    → IsWordSpec spec
    → IsValid s
    → IsValid (admit_with_prefix s spec cached).0
admit_with_prefix-IsValid s spec cached w v =
    admit_cases IsValid s spec cached v λ valid new known captured. record {
      config = v.config;
      entries = v.entries;
      tenants = v.tenants;
      requests =
          insert-Entries (IsRequest s.profile s.tenants) spec.id (entering spec cached) s.requests
            (entering-IsRequest s.profile s.tenants spec cached w valid known captured) v.requests;
      ascending = insert_zero-Ascending spec.id (entering spec cached) s.requests v.ascending;
      inflight =
          insert-IsInflight spec.id (entering spec cached) s.requests s.inflight new v.inflight;
    }

pub cancel-IsValid : (s : Scheduler) (id : ℕ) → IsValid s → IsValid (cancel s id).0
unfolding cancel
cancel-IsValid s id v = ground arith

cancelled_state-ended :
    (state : RequestState)
    → (cancelled_state state ≢ waiting_prefill) × (cancelled_state state ≢ decoding)
unfolding cancelled_state
cancelled_state-ended waiting_prefill = ground arith
cancelled_state-ended _ = ground arith

cancel_request-IsRequest :
    (profile : GraphProfile) (tenants : Map Tenant) (k : ℕ) (r : Request)
    → IsRequest profile tenants k r
    → IsRequest profile tenants k (cancel_request r)
unfolding cancel_request
cancel_request-IsRequest profile tenants k r v = ground (arith, cancelled_state-ended r.state)

cancel_all-Entries :
    (profile : GraphProfile) (tenants : Map Tenant) (ids : List ℕ) (requests : Map Request)
    → Entries (IsRequest profile tenants) requests
    → Entries (IsRequest profile tenants) (cancel_all ids requests)
unfolding cancel_all
cancel_all-Entries profile tenants [] requests h = h
cancel_all-Entries profile tenants (id ∷ ids) requests h =
    cancel_all-Entries profile tenants ids (adjust id cancel_request requests) (
      adjust-Entries (IsRequest profile tenants) id cancel_request requests
        (λ r found. cancel_request-IsRequest profile tenants id r) h)

cancel_all-Ascending :
    (ids : List ℕ) (requests : Map Request)
    → Ascending 0 requests
    → Ascending 0 (cancel_all ids requests)
unfolding cancel_all
cancel_all-Ascending [] requests a = a
cancel_all-Ascending (id ∷ ids) requests a =
    cancel_all-Ascending ids (adjust id cancel_request requests)
      (adjust-Ascending 0 id cancel_request requests a)

pub apply_cancellations-IsValid :
    (s : Scheduler) → s.inflight ≡ none → IsValid s → IsValid (apply_cancellations s)
unfolding apply_cancellations
apply_cancellations-IsValid s idle v = record {
  config = v.config;
  entries = v.entries;
  tenants = v.tenants;
  requests = cancel_all-Entries s.profile s.tenants s.cancellations s.requests v.requests;
  ascending = cancel_all-Ascending s.cancellations s.requests v.ascending;
  inflight = rw idle tt;
}

pub apply_cancellations_at_boundary-IsValid :
    (s : Scheduler) → IsValid s → IsValid (apply_cancellations_at_boundary s).0
unfolding apply_cancellations_at_boundary
apply_cancellations_at_boundary-IsValid s v = elim (Option-cases s.inflight) [
  | inl idle ↦ simp idle (apply_cancellations-IsValid s idle v)
  | inr (b, busy) ↦ simp busy v
]
