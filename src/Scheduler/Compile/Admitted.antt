-- ===== src/Scheduler/Compile/Admitted.antt =====
-- A compiled step runs the graph that the batch was shaped for (crates/glm-scheduler/src/compile.rs
-- with crates/glm-engine/src/graph.rs).
use glmaxx.Base.{
  ℕ, ◌≡◌, refl, inl, inr, true, false, List, length, ok, ◌==◌, ==-refl, arith, Result-cases,
  >>=-eq_ok, Memᴰ, sym, subst, ap, ◌∙◌, some, find_first,
}
use glmaxx.Engine.Admit.{compatible, check_compatible, find_compatible, admit_plan}
use glmaxx.Engine.Collective.{CollectiveOp, new_schedule}
use glmaxx.Engine.Graph.{
  StepMode, mode_eq, mode_code, AttentionTransport, transport_eq, transport_code, GraphEntry,
  GraphProfile, key_eq, verify_profile,
}
use glmaxx.Engine.Graph.Validity.{
  verify_profile-valid, validate_entries-distinct, find_first-distinct,
}
use glmaxx.Engine.Step.Verified.{build_parts, verify_plan-build}
use glmaxx.Engine.Step.{StepPlan, build, hashed, with_hashes, zero_hash, verify_plan}
use glmaxx.Scheduler.Compile.{
  StepPlanCompiler, CompiledStep, compile_operations, dcp_route, routes_compatible, plan_request,
  sampling_route_id, emit_step, route_step, compile_checked, compile,
}
use glmaxx.Scheduler.Shape.{kind_mode, kind_depth, fits}
use glmaxx.Scheduler.{ScheduledBatch, BatchKind}
use glmaxx.Scheduler.Compile.Routes.{compile_operations-HeadDcp, routes_parts}

transport_eq_refl : (t : AttentionTransport) → transport_eq t t ≡ true
unfolding transport_eq
transport_eq_refl t = ==-refl (transport_code t)

module _ (sha256 : List ℕ → List ℕ) (c : StepPlanCompiler) (batch : ScheduledBatch)
    (entry : GraphEntry) (generation : ℕ) (step : CompiledStep) where
  abbrev route_of : ℕ
  route_of = sampling_route_id c.routes (kind_mode batch.kind) batch.sampling

  -- What a batch that was compiled went through.
  record IsCompiled : Type 0 where
    mode : mode_eq entry.key.mode (kind_mode batch.kind) ≡ true
    depth : (entry.key.mtp_depth == kind_depth batch.kind) ≡ true
    graph : (batch.graph_id == entry.graph_id) ≡ true
    ops : List CollectiveOp
    dcp : ℕ
    operations :
        compile_operations c.routes entry.key.attention_transport
          (kind_mode batch.kind)
          batch.sampling
          batch.query_rows
        ≡ ok ops
    dcp_found : dcp_route c.routes entry.key.attention_transport ≡ ok dcp
    routes : routes_compatible c.routes entry ops route_of ≡ true
    scheduled : new_schedule sha256 ops ≡ ok step.schedule
    built : build sha256 (plan_request c batch entry generation dcp) step.schedule ≡ ok step.plan

  emit_parts :
      (dcp : ℕ) (ops : List CollectiveOp)
      → emit_step sha256 c batch entry generation dcp ops ≡ ok step
      → (new_schedule sha256 ops ≡ ok step.schedule)
        × (build sha256 (plan_request c batch entry generation dcp) step.schedule ≡ ok step.plan)
  unfolding emit_step
  emit_parts dcp ops h = elim (Result-cases (new_schedule sha256 ops)) [
    | inr (e, refused) ↦ ground arith
    | inl (s, made) ↦
        elim (Result-cases (build sha256 (plan_request c batch entry generation dcp) s)) [
          | inr (e, refused) ↦ ground arith
          | inl (p, planned) ↦
              let whole : record { plan = p; schedule = s } ≡ step = ground arith in
              let same : s ≡ step.schedule = ap (λ (x : CompiledStep). x.schedule) whole in
              let plan : p ≡ step.plan = ap (λ (x : CompiledStep). x.plan) whole in
              (
                made ∙ ap ok same,
                subst
                    (λ x. build sha256 (plan_request c batch entry generation dcp) x ≡ ok step.plan)
                    same (planned ∙ ap ok plan),
              )
        ]
  ]

  route_parts :
      (dcp : ℕ) (ops : List CollectiveOp)
      → route_step sha256 c batch entry generation dcp ops ≡ ok step
      → (routes_compatible c.routes entry ops route_of ≡ true)
        × (emit_step sha256 c batch entry generation dcp ops ≡ ok step)
  unfolding route_step
  route_parts dcp ops h = ground arith

  compile_guards :
      compile sha256 c batch entry generation ≡ ok step
      → (mode_eq entry.key.mode (kind_mode batch.kind) ≡ true)
        × ((entry.key.mtp_depth == kind_depth batch.kind) ≡ true)
        × ((batch.graph_id == entry.graph_id) ≡ true)
        × (compile_checked sha256 c batch entry generation ≡ ok step)
  unfolding compile
  compile_guards h = ground arith

  compile-IsCompiled : compile sha256 c batch entry generation ≡ ok step → IsCompiled
  unfolding compile_checked
  compile-IsCompiled h =
      let (mode, depth, graph, checked) = compile_guards h in
      let (ops, operations, rest) = >>=-eq_ok (compile_operations _ _ _ _ _) _ checked in
      let (dcp, found, routed) =
        >>=-eq_ok (dcp_route c.routes entry.key.attention_transport) _ rest in
      let (routes, emitted) = route_parts dcp ops routed in
      let (scheduled, built) = emit_parts dcp ops emitted in
      record {
        mode = mode;
        depth = depth;
        graph = graph;
        ops = ops;
        dcp = dcp;
        operations = operations;
        dcp_found = found;
        routes = routes;
        scheduled = scheduled;
        built = built;
      }

  -- The plan of a compiled batch is compatible with an entry that holds the batch.
  compatible-hashed :
      (k : IsCompiled)
      → fits batch.kind (length batch.rows) batch.query_rows entry ≡ true
      → compatible entry (
          hashed sha256 (
            with_hashes (plan_request c batch entry generation k.dcp) step.schedule.hash zero_hash))
        ≡ true
  unfolding compatible hashed with_hashes plan_request key_eq fits
  compatible-hashed k f =
      let first = compile_operations-HeadDcp _ _ _ _ _ k.dcp k.ops k.operations k.dcp_found in
      let (tp, dcp, sampling) = routes_parts c.routes entry k.dcp route_of k.ops k.routes first in
      ground (
        arith,
        k.mode,
        k.depth,
        ==-refl entry.key.sequence_bucket,
        ==-refl entry.key.verifier_row_bucket,
        transport_eq_refl entry.key.attention_transport,
      )

  compatible_plan :
      IsCompiled
      → fits batch.kind (length batch.rows) batch.query_rows entry ≡ true
      → compatible entry step.plan ≡ true
  compatible_plan k f =
      let (fine, valid, whole) =
        build_parts sha256 (plan_request c batch entry generation k.dcp) step.schedule step.plan
          k.built in
      subst (λ p. compatible entry p ≡ true) whole (compatible-hashed k f)

  plan_fields :
      IsCompiled → (step.plan.graph_id ≡ entry.graph_id) × (step.plan.mode ≡ kind_mode batch.kind)
  unfolding hashed with_hashes plan_request
  plan_fields k =
      let (fine, valid, whole) =
        build_parts sha256 (plan_request c batch entry generation k.dcp) step.schedule step.plan
          k.built in
      (sym (ap (λ (p : StepPlan). p.graph_id) whole), sym (ap (λ (p : StepPlan). p.mode) whole))

  check_found :
      (profile : GraphProfile)
      → find_first (λ e. e.graph_id == entry.graph_id) profile.entries ≡ some entry
      → step.plan.graph_id ≡ entry.graph_id
      → compatible entry step.plan ≡ true
      → find_compatible profile step.plan ≡ ok entry
  unfolding find_compatible check_compatible compatible
  check_found profile found same fine = rw (same, found, fine)

kind_mode-computes : (k : BatchKind) → mode_eq (kind_mode k) StepMode.cache_only ≡ false
unfolding mode_eq mode_code kind_mode
kind_mode-computes BatchKind.prefill = refl
kind_mode-computes BatchKind.decode = refl
kind_mode-computes (BatchKind.verify depth) = refl

admit_found :
    (sha256 : List ℕ → List ℕ) (profile : GraphProfile) (p : StepPlan) (entry : GraphEntry)
    → verify_profile sha256 profile ≡ ok tt
    → mode_eq p.mode StepMode.cache_only ≡ false
    → find_compatible profile p ≡ ok entry
    → admit_plan sha256 profile p ≡ ok entry
unfolding admit_plan
admit_found sha256 profile p entry verified computes found = rw (verified, computes, found)

-- When a batch compiles against an entry of a verified profile that holds the batch, the plan verifies
-- against its schedule, and the profile admits the plan, to that entry.
pub admit_plan-compile :
    (sha256 : List ℕ → List ℕ) (c : StepPlanCompiler) (batch : ScheduledBatch) (entry : GraphEntry)
    (generation : ℕ) (step : CompiledStep) (profile : GraphProfile)
    → verify_profile sha256 profile ≡ ok tt
    → Memᴰ entry profile.entries
    → fits batch.kind (length batch.rows) batch.query_rows entry ≡ true
    → compile sha256 c batch entry generation ≡ ok step
    → (verify_plan sha256 step.plan step.schedule ≡ ok tt)
      × (admit_plan sha256 profile step.plan ≡ ok entry)
admit_plan-compile sha256 c batch entry generation step profile verified captured f h =
    let k = compile-IsCompiled sha256 c batch entry generation step h in
    let (graph, mode) = plan_fields sha256 c batch entry generation step k in
    let distinct =
      validate_entries-distinct profile.entries (verify_profile-valid sha256 profile verified) in
    (
      (verify_plan-build sha256 _ step.schedule step.plan k.built).0,
      admit_found sha256 profile step.plan entry verified
          (ap (λ m. mode_eq m StepMode.cache_only) mode ∙ kind_mode-computes batch.kind)
          (check_found sha256 c batch entry generation step profile
            (find_first-distinct profile.entries entry distinct captured) graph
            (compatible_plan sha256 c batch entry generation step k f)),
    )
