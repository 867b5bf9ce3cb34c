-- ===== src/Scheduler/Batches/Decodable.antt =====
-- Decoding requests are selected (crates/glm-scheduler/src/lib.rs, `build_decode_batch`).
use glmaxx.Base.{
  ℕ, zero, suc, ◌+◌, ◌-◌, ◌≤◌, ◌<◌, ◌≡◌, refl, inl, inr, true, List, [], ◌∷◌, map, none, some,
  arith, ◌==◌, length, take, any, All, Memᴰ, All-mem, any-mem, mem-nonempty, ok, Bool-cases,
  u64_max, sym, subst, ap, ◌∙◌,
}
use glmaxx.Base.Maps.{find-mem, values}
use glmaxx.Engine.Graph.{GraphEntry, mode_eq}
use glmaxx.Engine.Graph.Validity.{IsCaptured}
use glmaxx.Scheduler.Admission.{is_decode_entry, has_graph_for_request}
use glmaxx.Scheduler.Invariant.{IsValid}
use glmaxx.Scheduler.Order.{ordered_requests, effective_decode_depth, can_verify}
use glmaxx.Scheduler.Order.Eligible.{
  IsEligible, ordered_requests-IsEligible, eligible-mem, effective_depth_total,
  effective_depth_bounds, effective_entry, in_class_own,
}
use glmaxx.Scheduler.Shape.{fits, kind_mode, kind_depth, batch_query_rows, finalize_batch}
use glmaxx.Scheduler.Shape.Choice.{finalize_cases}
use glmaxx.Scheduler.Batches.Progress.{Succeeds, finalize-Succeeds, in_class-none}
use glmaxx.Scheduler.Batches.Best.{}
use glmaxx.Scheduler.Batches.Decode.{is_decoding-eq}
use glmaxx.Scheduler.Batches.Equations.{
  shrink_done, shrink_again, build_class_ok, build_decode_cons, class_requests,
}
use glmaxx.Scheduler.Batches.{
  build_decode_batch, shrink_batch, build_class_batch, decode_row, decode_kind,
}
use glmaxx.Scheduler.{Request, BatchKind, Scheduler, SamplingCollective, is_decoding}

decode_captured :
    (s : Scheduler) (r : Request)
    → has_graph_for_request s.profile r.spec ≡ true
    → any is_decode_entry s.profile.entries ≡ true
unfolding has_graph_for_request
decode_captured s r h = ground arith

module _ (s : Scheduler) (room : s.next_step_id < u64_max) where
  decode-fits :
      (e : GraphEntry)
      → IsCaptured e
      → is_decode_entry e ≡ true
      → fits BatchKind.decode 1 1 e ≡ true
  unfolding fits kind_mode kind_depth is_decode_entry mode_eq
  decode-fits e k h = ground (arith, k.active, k.query_rows)

  verify-fits :
      (depth bound : ℕ) (e : GraphEntry)
      → IsCaptured e
      → can_verify bound e ≡ true
      → e.key.mtp_depth ≡ depth
      → fits (BatchKind.verify depth) 1 (depth + 1) e ≡ true
  unfolding fits kind_mode kind_depth can_verify mode_eq
  verify-fits depth bound e k h d = ground (arith, k.active)

  verify-query_rows :
      (depth : ℕ) (x : Request)
      → depth ≤ 6
      → batch_query_rows (BatchKind.verify depth) 1 (decode_row x ∷ []) ≡ ok (depth + 1)
  unfolding batch_query_rows
  verify-query_rows depth x h = ground arith

  -- One row of a request fits a captured graph at the request's own depth.
  one_row-Succeeds :
      (r : Request) (depth : ℕ) (sampling : SamplingCollective) (x : Request)
      → IsValid s
      → has_graph_for_request s.profile r.spec ≡ true
      → effective_decode_depth s.profile r ≡ ok depth
      → depth ≤ 6
      → Succeeds (finalize_batch s (decode_kind depth) sampling (decode_row x ∷ []))
  one_row-Succeeds r depth sampling x v captured at_depth few = elim (Bool-cases (depth == 0)) [
    | inl flat ↦
        rw flat
          (flat_row (any-mem is_decode_entry s.profile.entries (decode_captured s r captured)))
    | inr steep ↦ rw steep (steep_row (effective_entry s.profile r depth at_depth (ground arith)))
  ]
    where
      flat_row :
          ((e : GraphEntry) × Memᴰ e s.profile.entries × (is_decode_entry e ≡ true))
          → Succeeds (finalize_batch s BatchKind.decode sampling (decode_row x ∷ []))
      flat_row (e, m, h) =
          finalize-Succeeds s room BatchKind.decode sampling (decode_row x ∷ []) 1 e (omega arith)
            (omega arith) (unfold batch_query_rows in refl) m
            (decode-fits e (All-mem IsCaptured m v.entries) h)

      steep_row :
          ((e : GraphEntry) × (bound : ℕ) × Memᴰ e s.profile.entries
            × (can_verify bound e ≡ true)
            × (e.key.mtp_depth ≡ depth))
          → Succeeds (finalize_batch s (BatchKind.verify depth) sampling (decode_row x ∷ []))
      steep_row (e, bound, m, h, d) =
          finalize-Succeeds s room (BatchKind.verify depth) sampling (decode_row x ∷ []) (depth + 1)
            e (omega arith) (omega arith) (verify-query_rows depth x few) m
            (verify-fits depth bound e (All-mem IsCaptured m v.entries) h d)

  shrink-Succeeds :
      (kind : BatchKind) (sampling : SamplingCollective) (eligible : List Request) (n : ℕ)
      → Succeeds (finalize_batch s kind sampling (map decode_row (take 1 eligible)))
      → 0 < n
      → Succeeds (shrink_batch s kind sampling eligible n)
  shrink-Succeeds kind sampling eligible zero one h = absurd (omega arith)
  shrink-Succeeds kind sampling eligible (suc zero) (t, b, one) h =
      (t, b, shrink_done s kind sampling eligible zero t b one)
  shrink-Succeeds kind sampling eligible (suc (suc n)) one h =
      elim (finalize_cases s kind sampling (map decode_row (take (suc (suc n)) eligible))) [
        | inl (e, refused) ↦
            subst Succeeds (sym (shrink_again s kind sampling eligible (suc n) s e refused))
              (shrink-Succeeds kind sampling eligible (suc n) one (omega arith))
        | inr (b, shape, built) ↦ (_, b, shrink_done s kind sampling eligible (suc n) _ b built)
      ]

  class_head :
      (depth : ℕ) (sampling : SamplingCollective) (x : Request) (ys : List Request)
      → IsValid s
      → ordered_requests s is_decoding (some (depth, sampling)) ≡ x ∷ ys
      → class_requests s depth sampling ≡ x ∷ take (s.config.maximum_batch_sequences - 1) ys
  class_head depth sampling x ys v e =
      let one : s.config.maximum_batch_sequences ≡ suc (s.config.maximum_batch_sequences - 1) =
        omega (arith, v.config.sequences) in
      ap (take s.config.maximum_batch_sequences) e ∙ ap (λ n. take n (x ∷ ys)) one

  class-Succeeds :
      (first : Request)
      → IsValid s
      → IsEligible s is_decoding none first
      → Succeeds (build_class_batch s first)
  class-Succeeds first v w =
      let (depth, at_depth) =
        effective_depth_total s.profile first (w.valid.unfinished (is_decoding-eq first w.state)) in
      let sampling = first.spec.sampling in
      let (x, ys, e) = mem-nonempty (
        eligible-mem s v is_decoding (some (depth, sampling)) first
          (find-mem first.spec.id s.requests w.found) w.state
          (in_class_own s.profile first depth at_depth)) in
      let (deep, _) = effective_depth_bounds s.profile first depth at_depth in
      subst Succeeds (sym (build_class_ok s first depth at_depth)) (
        subst (λ el. Succeeds (shrink_batch s (decode_kind depth) sampling el (length el)))
          (sym (class_head depth sampling x ys v e))
          (shrink-Succeeds (decode_kind depth) sampling
            (x ∷ take (s.config.maximum_batch_sequences - 1) ys) _
            (one_row-Succeeds first depth sampling x v w.valid.captured at_depth
              (omega (arith, w.valid.depth)))
            (omega arith)))

  pub build_decode_batch-Succeeds :
      (r : Request)
      → IsValid s
      → Memᴰ r (values s.requests)
      → is_decoding r.state ≡ true
      → Succeeds (build_decode_batch s)
  build_decode_batch-Succeeds r v m state =
      let (x, ys, e) =
        mem-nonempty (eligible-mem s v is_decoding none r m state (in_class-none s.profile r)) in
      let w =
        subst (All (IsEligible s is_decoding none)) e
          (ordered_requests-IsEligible s v is_decoding none) in
      subst Succeeds (sym (build_decode_cons s x ys e)) (class-Succeeds x v w.0)
