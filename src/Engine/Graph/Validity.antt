-- ===== src/Engine/Graph/Validity.antt =====
-- What a verified profile guarantees of its entries (crates/glm-engine/src/graph.rs).
use glmaxx.Base.Sorting.{sort_by}
use glmaxx.Base.{
  Memᴰ, All-mem, Result-cases, leb, ℕ, ◌≤◌, ◌<◌, ◌≡◌, refl, ◌≢◌, inl, inr, true, false, List, [],
  ◌∷◌, arith, ◌==◌, any, All, ok, find_first, some, ==-refl, sym, subst,
}
use glmaxx.Engine.Graph.{
  StepMode, mode_eq, prefill, GraphEntry, GraphKey, GraphProfile, bounds_valid, mode_valid,
  entry_valid, validate_from, validate_entries, hash_entries, new_profile, verify_profile, bytes_eq,
  profile_schema, step_plan_abi_name, kernel_abi_name,
}

pub mode_eq-eq : (a b : StepMode) → mode_eq a b ≡ true → a ≡ b
unfolding mode_eq
mode_eq-eq prefill b h = ground arith
mode_eq-eq _ b h = ground arith

pub mode_eq_refl : (a : StepMode) → mode_eq a a ≡ true
unfolding mode_eq
mode_eq_refl prefill = refl
mode_eq_refl _ = refl

-- What the scheduler relies on of a captured entry.
pub record IsCaptured (e : GraphEntry) : Type 0 where
  pub active : 0 < e.maximum_active_sequences
  pub bucket : e.maximum_active_sequences ≤ e.key.sequence_bucket
  pub query_rows : 0 < e.maximum_query_rows
  pub prompt : e.key.mode ≡ prefill → 0 < e.maximum_prompt_tokens
  pub prompt_depth : e.key.mode ≡ prefill → e.key.mtp_depth ≡ 0

mode_valid-prompt :
    (m : StepMode) (e : GraphEntry)
    → mode_valid m e ≡ true
    → m ≡ prefill
    → (0 < e.maximum_prompt_tokens) × (e.key.mtp_depth ≡ 0)
unfolding mode_valid
mode_valid-prompt prefill e h p = ground arith
mode_valid-prompt _ e h p = cc

entry_valid_parts :
    (e : GraphEntry)
    → entry_valid e ≡ true
    → (bounds_valid e ≡ true) × (mode_valid e.key.mode e ≡ true)
unfolding entry_valid
entry_valid_parts e h = ground arith

bounds_valid_parts :
    (e : GraphEntry)
    → bounds_valid e ≡ true
    → (0 < e.maximum_active_sequences)
      × (e.maximum_active_sequences ≤ e.key.sequence_bucket)
      × (0 < e.maximum_query_rows)
unfolding bounds_valid
bounds_valid_parts e h = ground arith

pub entry_valid-IsCaptured : (e : GraphEntry) → entry_valid e ≡ true → IsCaptured e
entry_valid-IsCaptured e h =
    let (bounds, mode) = entry_valid_parts e h in
    let (active, bucket, rows) = bounds_valid_parts e bounds in
    record {
      active = active;
      bucket = bucket;
      query_rows = rows;
      prompt = λ p. (mode_valid-prompt e.key.mode e mode p).0;
      prompt_depth = λ p. (mode_valid-prompt e.key.mode e mode p).1;
    }

-- Identifiers that the loop has seen do not come again.
abbrev IdFresh : ℕ → List GraphEntry → Type 0
IdFresh id = All (λ e. e.graph_id ≢ id)

abbrev pub IdsDistinct : List GraphEntry → Type 0
IdsDistinct [] = Unit
IdsDistinct (e ∷ es) = IdFresh e.graph_id es × IdsDistinct es

validate_from_step :
    (ids : List ℕ) (keys : List GraphKey) (e : GraphEntry) (es : List GraphEntry)
    → validate_from ids keys (e ∷ es) ≡ true
    → (any (λ id. id == e.graph_id) ids ≡ false)
      × (entry_valid e ≡ true)
      × (validate_from (e.graph_id ∷ ids) (e.key ∷ keys) es ≡ true)
unfolding validate_from
validate_from_step ids keys e es h = ground arith

any-false_head : (id x : ℕ) (ids : List ℕ) → any (λ i. i == x) (id ∷ ids) ≡ false → (x ≢ id)
any-false_head id x ids h e = ground arith

any-false_tail :
    (id x : ℕ) (ids : List ℕ) → any (λ i. i == x) (id ∷ ids) ≡ false → any (λ i. i == x) ids ≡ false
any-false_tail id x ids h = ground arith

validate_from-fresh :
    (id : ℕ) (ids : List ℕ) (keys : List GraphKey) (es : List GraphEntry)
    → any (λ i. i == id) ids ≡ true
    → validate_from ids keys es ≡ true
    → IdFresh id es
validate_from-fresh id ids keys [] seen h = tt
validate_from-fresh id ids keys (e ∷ es) seen h =
    let (new, _, rest) = validate_from_step ids keys e es h in
    (
      λ same. cc (subst (λ x. any (λ i. i == x) ids ≡ true) (sym same) seen, new),
      validate_from-fresh id (e.graph_id ∷ ids) (e.key ∷ keys) es (ground arith) rest,
    )

validate_from-distinct :
    (ids : List ℕ) (keys : List GraphKey) (es : List GraphEntry)
    → validate_from ids keys es ≡ true
    → IdsDistinct es
validate_from-distinct ids keys [] h = tt
validate_from-distinct ids keys (e ∷ es) h =
    let (new, _, rest) = validate_from_step ids keys e es h in
    (
      validate_from-fresh e.graph_id (e.graph_id ∷ ids) (e.key ∷ keys) es
          (ground (arith, ==-refl e.graph_id)) rest,
      validate_from-distinct (e.graph_id ∷ ids) (e.key ∷ keys) es rest,
    )

validate_from-IsCaptured :
    (ids : List ℕ) (keys : List GraphKey) (es : List GraphEntry)
    → validate_from ids keys es ≡ true
    → All IsCaptured es
validate_from-IsCaptured ids keys [] h = tt
validate_from-IsCaptured ids keys (e ∷ es) h =
    let (_, valid, rest) = validate_from_step ids keys e es h in
    (
      entry_valid-IsCaptured e valid,
      validate_from-IsCaptured (e.graph_id ∷ ids) (e.key ∷ keys) es rest,
    )

validate_entries_loop :
    (es : List GraphEntry) → validate_entries es ≡ ok tt → validate_from [] [] es ≡ true
unfolding validate_entries
validate_entries_loop [] h = cc
validate_entries_loop (e ∷ es) h = ground arith

pub validate_entries-IsCaptured :
    (es : List GraphEntry) → validate_entries es ≡ ok tt → All IsCaptured es
validate_entries-IsCaptured es h = validate_from-IsCaptured [] [] es (validate_entries_loop es h)

pub validate_entries-distinct :
    (es : List GraphEntry) → validate_entries es ≡ ok tt → IdsDistinct es
validate_entries-distinct es h = validate_from-distinct [] [] es (validate_entries_loop es h)

-- The entry that an identifier finds is the one entry of the profile that has it.
pub find_first-distinct :
    (es : List GraphEntry) (e : GraphEntry)
    → IdsDistinct es
    → Memᴰ e es
    → find_first (λ other. other.graph_id == e.graph_id) es ≡ some e
find_first-distinct [] e d m = elim m [ ]
find_first-distinct (o ∷ es) e d (Memᴰ.head same) = ground (arith, ==-refl e.graph_id)
find_first-distinct (o ∷ es) e d (Memᴰ.tail m) = ground (
  arith,
  All-mem (λ (x : GraphEntry). x.graph_id ≢ o.graph_id) m d.0,
  find_first-distinct es e d.1 m,
)

pub bytes_eq_refl : (bytes : List ℕ) → bytes_eq bytes bytes ≡ true
unfolding bytes_eq
bytes_eq_refl [] = refl
bytes_eq_refl (b ∷ bs) = ground (arith, ==-refl b, bytes_eq_refl bs)

verify_profile-built :
    (sha256 : List ℕ → List ℕ) (entries : List GraphEntry)
    → validate_entries entries ≡ ok tt
    → verify_profile sha256 (record {
      schema = profile_schema;
      step_plan_abi = step_plan_abi_name;
      kernel_abi = kernel_abi_name;
      entries = entries;
      profile_hash = hash_entries sha256 entries;
    })
      ≡ ok tt
unfolding verify_profile
verify_profile-built sha256 entries h = rw (h, bytes_eq_refl (hash_entries sha256 entries))

-- A profile that `GraphProfile::new` returns verifies, whatever the hash function.
pub verify_profile-new_profile :
    (sha256 : List ℕ → List ℕ) (entries : List GraphEntry) (p : GraphProfile)
    → new_profile sha256 entries ≡ ok p
    → verify_profile sha256 p ≡ ok tt
unfolding new_profile
verify_profile-new_profile sha256 entries p h =
    let sorted = sort_by (λ a b. leb a.graph_id b.graph_id) entries in
    elim (Result-cases (validate_entries sorted)) [
      | inl (tt, valid) ↦
          subst (λ q. verify_profile sha256 q ≡ ok tt) (ground arith)
            (verify_profile-built sha256 sorted valid)
      | inr (e, invalid) ↦ ground arith
    ]

pub verify_profile-valid :
    (sha256 : List ℕ → List ℕ) (p : GraphProfile)
    → verify_profile sha256 p ≡ ok tt
    → validate_entries p.entries ≡ ok tt
unfolding verify_profile
verify_profile-valid sha256 p h = ground arith
