-- ===== src/Cache/Budget.antt =====
-- The memory budget of a rank: crates/glm-cache/src/budget.rs, with the constants of lib.rs.
use glmaxx.Base.{
  ℕ, ◌+◌, ◌*◌, ◌≤◌, ◌≡◌, ◌↔◌, inl, inr, Bool, true, false, List, [], ◌∷◌, Result, ok, err, or_fail,
  ◌>>=◌, checked_add, checked_mul, checked_sub, ltb, leb, if◌then◌else◌, arith, u64_max, Bool-cases,
  Result-cases,
}

abbrev pub page_tokens : ℕ
page_tokens = 64

abbrev pub model_positions : ℕ
model_positions = 1_048_576

abbrev pub target_layers : ℕ
target_layers = 78

abbrev pub indexer_groups : ℕ
indexer_groups = 21

abbrev pub draft_indexer_groups : ℕ
draft_indexer_groups = 1

abbrev pub kv_record_bytes : ℕ
kv_record_bytes = 368

abbrev pub indexer_record_bytes : ℕ
indexer_record_bytes = 132

pub record CacheCapacity : Type 0 where
  pub target_kv_bytes : ℕ
  pub draft_kv_bytes : ℕ
  pub indexer_key_bytes : ℕ
  pub draft_indexer_key_bytes : ℕ

pub data BudgetError : Type 0 where
  positions_error overflow : BudgetError
  does_not_fit : ℕ → ℕ → BudgetError

unfoldable pub scaled_twice : ℕ → ℕ → ℕ → Result BudgetError ℕ
scaled_twice positions count bytes = do
  records ← or_fail (checked_mul u64_max positions count) overflow
  or_fail (checked_mul u64_max records bytes) overflow

-- `CacheCapacity::at_positions`.
unfoldable pub at_positions : ℕ → Bool → Result BudgetError CacheCapacity
at_positions positions mtp = if ltb model_positions positions then err positions_error else do
  target_kv ← scaled_twice positions target_layers kv_record_bytes
  draft_kv ← if mtp then or_fail (checked_mul u64_max positions kv_record_bytes) overflow else ok 0
  indexer ← scaled_twice positions indexer_groups indexer_record_bytes
  draft_indexer ←
      if mtp then scaled_twice positions draft_indexer_groups indexer_record_bytes else ok 0
  ok (record {
    target_kv_bytes = target_kv;
    draft_kv_bytes = draft_kv;
    indexer_key_bytes = indexer;
    draft_indexer_key_bytes = draft_indexer;
  })

unfoldable pub total : CacheCapacity → Result BudgetError ℕ
total c = do
  kv ← or_fail (checked_add u64_max c.target_kv_bytes c.draft_kv_bytes) overflow
  with_keys ← or_fail (checked_add u64_max kv c.indexer_key_bytes) overflow
  or_fail (checked_add u64_max with_keys c.draft_indexer_key_bytes) overflow

pub record Budget : Type 0 where
  pub weights : ℕ
  pub modules_and_contexts : ℕ
  pub graphs : ℕ
  pub workspace : ℕ
  pub collectives_and_staging : ℕ
  pub target_kv : ℕ
  pub draft_kv : ℕ
  pub indexer_keys : ℕ
  pub draft_indexer_keys : ℕ
  pub model_metadata : ℕ
  pub page_tables : ℕ
  pub allocator_padding : ℕ
  pub escrow : ℕ

abbrev pub parts : Budget → List ℕ
parts b =
    b.weights ∷ b.modules_and_contexts ∷ b.graphs ∷ b.workspace ∷ b.collectives_and_staging
    ∷ b.target_kv ∷ b.draft_kv ∷ b.indexer_keys ∷ b.draft_indexer_keys ∷ b.model_metadata
    ∷ b.page_tables ∷ b.allocator_padding ∷ b.escrow ∷ []

-- The fold of `required`.
unfoldable pub checked_total : ℕ → List ℕ → Result BudgetError ℕ
checked_total sum [] = ok sum
checked_total sum (value ∷ values) = do
  sum' ← or_fail (checked_add u64_max sum value) overflow
  checked_total sum' values

unfoldable pub required : Budget → Result BudgetError ℕ
unfolding checked_total
required b = checked_total 0 (parts b)

unfoldable pub validate_budget : Budget → ℕ → Result BudgetError ℕ
validate_budget b measured_usable = do
  needed ← required b
  or_fail (checked_sub measured_usable needed) (does_not_fit needed measured_usable)

-- The bytes that a number of positions takes.
abbrev pub position_bytes : Bool → ℕ
position_bytes true = 79 * kv_record_bytes + 22 * indexer_record_bytes
position_bytes false = 78 * kv_record_bytes + 21 * indexer_record_bytes

-- Up to the model's positions the capacity is computed without overflow, and its total is the positions
-- times the bytes of one: 78 layers and 21 indexer groups, and with MTP one more of each.
pub capacity_total :
    (positions : ℕ) (mtp : Bool)
    → positions ≤ model_positions
    → (at_positions positions mtp >>= total) ≡ ok (positions * position_bytes mtp)
unfolding at_positions scaled_twice total
capacity_total positions true h = ground arith
capacity_total positions false h = ground arith

unfoldable pub sum : List ℕ → ℕ
sum [] = 0
sum (x ∷ xs) = x + sum xs

checked_total-ok :
    (acc : ℕ) (xs : List ℕ) → acc + sum xs ≤ u64_max → checked_total acc xs ≡ ok (acc + sum xs)
unfolding checked_total sum
checked_total-ok acc [] h = ground arith
checked_total-ok acc (x ∷ xs) h = ground (arith, checked_total-ok (acc + x) xs (omega arith))

checked_total-sum : (acc q : ℕ) (xs : List ℕ) → checked_total acc xs ≡ ok q → q ≡ acc + sum xs
unfolding checked_total sum
checked_total-sum acc q [] h = ground arith
checked_total-sum acc q (x ∷ xs) h = elim (Bool-cases (leb (acc + x) u64_max)) [
  | inl room ↦ ground (arith, checked_total-sum (acc + x) q xs (ground arith))
  | inr full ↦ ground arith
]

fits_left :
    (b : Budget) (usable left : ℕ)
    → validate_budget b usable ≡ ok left
    → sum (parts b) + left ≡ usable
unfolding validate_budget required
fits_left b usable left h = elim (Result-cases (required b)) [
  | inl (q, e) ↦ ground (arith, checked_total-sum 0 q (parts b) e)
  | inr (x, e) ↦ ground arith
]

left_fits :
    (b : Budget) (usable left : ℕ)
    → usable ≤ u64_max
    → sum (parts b) + left ≡ usable
    → validate_budget b usable ≡ ok left
unfolding validate_budget required
left_fits b usable left w h =
    let needed : required b ≡ ok (sum (parts b)) =
      ground (arith, checked_total-ok 0 (parts b) (omega arith)) in
    ground arith

-- The bytes that a budget asks for.
abbrev pub budget_bytes : Budget → ℕ
budget_bytes b =
    b.weights
    + b.modules_and_contexts
    + b.graphs
    + b.workspace
    + b.collectives_and_staging
    + (b.target_kv + b.draft_kv + b.indexer_keys + b.draft_indexer_keys)
    + (b.model_metadata + b.page_tables + b.allocator_padding + b.escrow)

sum-parts : (b : Budget) → sum (parts b) ≡ budget_bytes b
unfolding sum
sum-parts b = omega arith

-- A budget fits, with the given bytes left, exactly if those bytes and all that the budget names add up
-- to the usable memory, a 64-bit word: the weights, the modules and contexts, the graphs, the workspace,
-- the collectives and staging, the target and the draft records, the target and the draft indexer keys,
-- the metadata, the page tables, the padding and the escrow.
pub validate_budget_fits :
    (b : Budget) (usable left : ℕ)
    → usable ≤ u64_max
    → validate_budget b usable ≡ ok left ↔ budget_bytes b + left ≡ usable
validate_budget_fits b usable left w =
    let bytes = sum-parts b in
    (
      λ h. omega (arith, bytes, fits_left b usable left h),
      λ h. left_fits b usable left w (omega (arith, bytes)),
    )
