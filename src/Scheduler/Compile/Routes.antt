-- ===== src/Scheduler/Compile/Routes.antt =====
-- The routes of a compiled step's operations (crates/glm-scheduler/src/compile.rs).
use glmaxx.Base.{
  ℕ, ◌≡◌, refl, true, ◌||◌, List, [], ◌∷◌, ◌++◌, length, ok, ◌==◌, arith, >>=-eq_ok, subst,
}
use glmaxx.Engine.Admit.{contains}
use glmaxx.Engine.Collective.{CollectiveKind, CollectiveOp}
use glmaxx.Engine.Graph.{
  StepMode, AttentionTransport, GraphEntry, none_transport, prefill_ckv, prefill_query,
  decode_query_lse,
}
use glmaxx.Scheduler.Compile.{
  RouteCatalog, scaled, push, push_scaled, attention_operations, sampling_operations,
  compile_operations, dcp_route, is_dcp, required_dcp_routes, routes_compatible, operation_at,
}
use glmaxx.Scheduler.{SamplingCollective}

-- The first operation is one of the DCP's, on the route given.
abbrev pub HeadDcp : ℕ → List CollectiveOp → Type 0
HeadDcp d [] = ⊥
HeadDcp d (op ∷ ops) = (is_dcp op.kind ≡ true) × (op.route_id ≡ d)

push-whole :
    (ops ops' : List CollectiveOp) (k : CollectiveKind) (route payload : ℕ)
    → push ops k route payload ≡ ok ops'
    → ops ++ (operation_at (length ops) k route payload ∷ []) ≡ ops'
unfolding push
push-whole ops ops' k route payload h = ground arith

push_scaled-HeadDcp :
    (d : ℕ) (ops ops' : List CollectiveOp) (k : CollectiveKind) (route bytes rows : ℕ)
    → push_scaled ops k route bytes rows ≡ ok ops'
    → HeadDcp d ops
    → HeadDcp d ops'
unfolding push_scaled
push_scaled-HeadDcp d [] ops' k route bytes rows h m = absurd m
push_scaled-HeadDcp d (op ∷ ops) ops' k route bytes rows h m =
    let (payload, _, pushed) = >>=-eq_ok (scaled bytes rows) _ h in
    subst (HeadDcp d) (push-whole (op ∷ ops) ops' k route payload pushed) m

push_first :
    (ops : List CollectiveOp) (k : CollectiveKind) (route bytes rows : ℕ)
    → push_scaled [] k route bytes rows ≡ ok ops
    → is_dcp k ≡ true
    → HeadDcp route ops
unfolding push_scaled
push_first ops k route bytes rows h dcp =
    let (payload, _, pushed) = >>=-eq_ok (scaled bytes rows) _ h in
    subst (HeadDcp route) (push-whole [] ops k route payload pushed) (dcp, refl)

attention-HeadDcp :
    (c : RouteCatalog) (t : AttentionTransport) (rows d : ℕ) (ops : List CollectiveOp)
    → attention_operations c t rows ≡ ok ops
    → dcp_route c t ≡ ok d
    → HeadDcp d ops
unfolding attention_operations dcp_route is_dcp
attention-HeadDcp c prefill_ckv rows d ops h e =
    subst (λ x. HeadDcp x ops) (ground arith) (push_first ops _ c.dcp_ckv_route_id _ rows h refl)
attention-HeadDcp c prefill_query rows d ops h e =
    let (first, one, rest) =
      >>=-eq_ok (push_scaled [] _ c.dcp_query_route_id c.query_bytes_per_row rows) _ h in
    subst (λ x. HeadDcp x ops) (ground arith)
      (push_scaled-HeadDcp c.dcp_query_route_id first ops _ _ _ rows rest
        (push_first first _ c.dcp_query_route_id _ rows one refl))
attention-HeadDcp c decode_query_lse rows d ops h e =
    let (first, one, rest) =
      >>=-eq_ok (push_scaled [] _ c.dcp_query_route_id c.query_bytes_per_row rows) _ h in
    let (second, two, last) =
      >>=-eq_ok (push_scaled first _ c.dcp_candidate_route_id c.candidate_bytes_per_row rows) _
        rest in
    subst (λ x. HeadDcp x ops) (ground arith)
      (push_scaled-HeadDcp c.dcp_query_route_id second ops _ _ _ rows last (
        push_scaled-HeadDcp c.dcp_query_route_id first second _ _ _ rows two
          (push_first first _ c.dcp_query_route_id _ rows one refl)))
attention-HeadDcp c none_transport rows d ops h e = cc

sampling-HeadDcp :
    (c : RouteCatalog) (m : StepMode) (sampling : SamplingCollective) (rows d : ℕ)
    (ops ops' : List CollectiveOp)
    → sampling_operations c m sampling rows ops ≡ ok ops'
    → HeadDcp d ops
    → HeadDcp d ops'
unfolding sampling_operations
sampling-HeadDcp c StepMode.prefill sampling rows d ops ops' h k =
    subst (HeadDcp d) (ground arith) k
sampling-HeadDcp c _ sampling rows d ops ops' h k = push_scaled-HeadDcp d ops ops' _ _ _ rows h k

pub compile_operations-HeadDcp :
    (c : RouteCatalog) (t : AttentionTransport) (m : StepMode) (sampling : SamplingCollective)
    (rows d : ℕ) (ops : List CollectiveOp)
    → compile_operations c t m sampling rows ≡ ok ops
    → dcp_route c t ≡ ok d
    → HeadDcp d ops
unfolding compile_operations
compile_operations-HeadDcp c t m sampling rows d ops h e =
    let (attention, one, rest) = >>=-eq_ok (attention_operations c t rows) _ h in
    let (reduced, two, last) =
      >>=-eq_ok (push_scaled attention _ c.tp_route_id c.tp_reduce_bytes_per_row rows) _ rest in
    sampling-HeadDcp c m sampling rows d reduced ops last (
      push_scaled-HeadDcp d attention reduced _ _ _ rows two
        (attention-HeadDcp c t rows d attention one e))

-- The routes that `routes_compatible` finds in the entry.
pub routes_parts :
    (c : RouteCatalog) (entry : GraphEntry) (d route : ℕ) (ops : List CollectiveOp)
    → routes_compatible c entry ops route ≡ true
    → HeadDcp d ops
    → (contains entry.compatible_tp_routes c.tp_route_id ≡ true)
      × (contains entry.compatible_dcp_routes d ≡ true)
      × ((route == 0 || contains entry.compatible_sampling_routes route) ≡ true)
unfolding routes_compatible required_dcp_routes
routes_parts c entry d route [] h k = absurd k
routes_parts c entry d route (op ∷ ops) h (dcp, same) = ground arith
