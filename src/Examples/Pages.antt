-- ===== src/Examples/Pages.antt =====
-- The theorems on pages, budgets and speculative tails at small inputs.
use glmaxx.Base.{
  ◌≡◌, ◌↔◌, ◌+◌, ◌*◌, ◌-◌, min, ◌≤◌, ◌<◌, refl, true, List, [], ◌∷◌, some, ok, Memᴰ, arith, ◌>>=◌,
}
use glmaxx.Cache.Budget.{
  Budget, validate_budget, validate_budget_fits, at_positions, total, capacity_total,
  position_bytes, budget_bytes,
}
use glmaxx.Cache.Mtp.{
  begin, clamped, verify_greedy, verify_greedy-begin, begin_depth, tail_at, fresh_tail, outcome,
}
use glmaxx.Cache.Page.Lifecycle.{
  tiered-sealed, reuse-invalid, IsDraftOf, validate_attachments_accepts, recycles,
}
use glmaxx.Cache.Page.{
  PageState, free, hbm_mutable, hbm_tentative, hbm_sealed, dram_writing, dram_resident,
  nvme_writing, invalid, legal, transition, run_transitions, is_tiered, PageAttachments,
  validate_attachments,
}

abbrev offload : List PageState
offload = hbm_mutable ∷ hbm_sealed ∷ dram_writing ∷ dram_resident ∷ nvme_writing ∷ []

offload_test : run_transitions free offload ≡ ok nvme_writing
unfolding run_transitions transition legal
offload_test = refl

tiered-sealed_example : Memᴰ hbm_sealed (free ∷ offload)
tiered-sealed_example =
    tiered-sealed free nvme_writing offload offload_test (unfold is_tiered in refl)
      (unfold is_tiered in refl)

abbrev discard : List PageState
discard = hbm_tentative ∷ invalid ∷ free ∷ []

discard_test : run_transitions hbm_mutable discard ≡ ok free
unfolding run_transitions transition legal
discard_test = refl

reuse-invalid_example : Memᴰ invalid (hbm_mutable ∷ discard)
reuse-invalid_example = reuse-invalid hbm_mutable hbm_tentative (invalid ∷ free ∷ []) discard_test

abbrev attached : PageAttachments
attached = record {
  target_generation = 4;
  target_indexer_generation = 4;
  draft_kv_generation = some 4;
  draft_indexer_generation = some 4;
}

validate_attachments_accepts_example :
    validate_attachments attached true ≡ ok tt
    ↔ (attached.target_generation ≡ attached.target_indexer_generation)
      × IsDraftOf 4 true (some 4) (some 4)
validate_attachments_accepts_example = validate_attachments_accepts attached true

capacity_total_example : (at_positions 1024 true >>= total) ≡ ok (1024 * position_bytes true)
capacity_total_example = capacity_total 1024 true (omega arith)

abbrev small_budget : Budget
small_budget = record {
  weights = 100;
  modules_and_contexts = 10;
  graphs = 5;
  workspace = 5;
  collectives_and_staging = 5;
  target_kv = 40;
  draft_kv = 4;
  indexer_keys = 4;
  draft_indexer_keys = 2;
  model_metadata = 1;
  page_tables = 1;
  allocator_padding = 1;
  escrow = 2;
}

validate_budget_fits_example :
    validate_budget small_budget 200 ≡ ok 20 ↔ budget_bytes small_budget + 20 ≡ 200
validate_budget_fits_example = validate_budget_fits small_budget 200 20 (omega arith)

begin_test : begin 10 6 14 ≡ ok (tail_at 10 3 14)
unfolding begin clamped
begin_test = refl

verify_greedy-begin_example :
    (verify_greedy (tail_at 10 3 14) 2 ≡ ok (outcome 10 2)) × (10 + 2 + 1 ≤ 14)
verify_greedy-begin_example =
    verify_greedy-begin 10 6 14 2 (tail_at 10 3 14) (omega arith) begin_test (omega arith)

begin_depth_example :
    begin 10 6 14 ≡ ok (tail_at 10 3 14)
    ↔ (6 ≤ 6) × (10 < 14) × (tail_at 10 3 14 ≡ fresh_tail 10 (min 6 (14 - 10 - 1)) 14)
begin_depth_example = begin_depth 10 6 14 (tail_at 10 3 14)

recycles_example :
    ((history : List PageState) × (run_transitions nvme_writing history ≡ ok free))
    × ((history : List PageState) × (run_transitions nvme_writing history ≡ ok hbm_sealed))
recycles_example = recycles nvme_writing
