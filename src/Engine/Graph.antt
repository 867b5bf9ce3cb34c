-- ===== src/Engine/Graph.antt =====
-- Captured graph profiles: crates/glm-engine/src/graph.rs, with the modes and transports of step.rs.
-- SHA-256 is a function from bytes to bytes that the definitions take as an argument.
pub mod Validity
use Prim.Native.String.{String}
use Prim.Native.Char.{code}
use text.Mathlib.Text.{◌==◌ as str_eq}
use glmaxx.Base.{
  ℕ, zero, suc, ◌+◌, ◌/◌, ◌%◌, min, Bool, true, false, ◌&&◌, ◌||◌, not, List, [], ◌∷◌, ◌++◌, Option,
  none, some, ltb, leb, ◌==◌, if◌then◌else◌, any, all, is_empty, length, find_first, Result, ok,
  err, u16_max, u32_max,
}
use glmaxx.Base.Sorting.{sort_by}

pub data StepMode : Type 0 where
  prefill decode verify mixed cache_only : StepMode

unfoldable pub mode_code : StepMode → ℕ
mode_code prefill = 1
mode_code decode = 2
mode_code verify = 3
mode_code mixed = 4
mode_code cache_only = 5

unfoldable pub mode_eq : StepMode → StepMode → Bool
unfolding mode_code
mode_eq a b = mode_code a == mode_code b

pub data AttentionTransport : Type 0 where
  none_transport prefill_ckv prefill_query decode_query_lse : AttentionTransport

unfoldable pub transport_code : AttentionTransport → ℕ
transport_code none_transport = 0
transport_code prefill_ckv = 1
transport_code prefill_query = 2
transport_code decode_query_lse = 3

unfoldable pub transport_eq : AttentionTransport → AttentionTransport → Bool
unfolding transport_code
transport_eq a b = transport_code a == transport_code b

pub record GraphKey : Type 0 where
  pub mode : StepMode
  pub sequence_bucket : ℕ
  pub verifier_row_bucket : ℕ
  pub mtp_depth : ℕ
  pub attention_transport : AttentionTransport

pub record GraphEntry : Type 0 where
  pub graph_id : ℕ
  pub key : GraphKey
  pub maximum_active_sequences : ℕ
  pub maximum_prompt_tokens : ℕ
  pub maximum_query_rows : ℕ
  pub compatible_tp_routes : List ℕ
  pub compatible_dcp_routes : List ℕ
  pub compatible_sampling_routes : List ℕ
  pub maximum_scratch_bytes : ℕ
  pub argument_bytes : ℕ
  pub graph_object_bytes : ℕ
  pub resident_module_bytes : ℕ
  pub admission_slo_class : ℕ

pub record GraphProfile : Type 0 where
  pub schema : String
  pub step_plan_abi : String
  pub kernel_abi : String
  pub entries : List GraphEntry
  pub profile_hash : List ℕ

pub data GraphProfileError : Type 0 where
  empty abi entry hash missing_graph incompatible cache_only_has_no_graph : GraphProfileError

abbrev pub profile_schema : String
profile_schema = "glmaxx.graph-profile.v1"

abbrev pub step_plan_abi_name : String
step_plan_abi_name = "glmaxx.step-plan.v1"

abbrev pub kernel_abi_name : String
kernel_abi_name = "glmaxx.sm120.nvfp4.routed_moe.v2"

-- Equality of keys, which the derived order of the set of keys decides.
unfoldable pub key_eq : GraphKey → GraphKey → Bool
unfolding mode_eq transport_eq
key_eq a b =
    mode_eq a.mode b.mode
    && a.sequence_bucket == b.sequence_bucket
    && a.verifier_row_bucket == b.verifier_row_bucket
    && a.mtp_depth == b.mtp_depth
    && transport_eq a.attention_transport b.attention_transport

unfoldable pub ascending_from : ℕ → List ℕ → Bool
ascending_from prior [] = true
ascending_from prior (value ∷ values) = ltb prior value && ascending_from value values

-- Every route is nonzero and each is above the one before it.
unfoldable pub strictly_sorted_nonzero : List ℕ → Bool
unfolding ascending_from
strictly_sorted_nonzero values = all (λ value. not (value == 0)) values && windows values
  where
    windows : List ℕ → Bool
    windows [] = true
    windows (value ∷ rest) = ascending_from value rest

-- The bounds of an entry that do not depend on its mode.
unfoldable pub bounds_valid : GraphEntry → Bool
bounds_valid e =
    not (e.graph_id == 0)
    && not (e.maximum_active_sequences == 0)
    && leb e.maximum_active_sequences e.key.sequence_bucket
    && not (e.maximum_query_rows == 0)
    && not (e.admission_slo_class == 0)

unfoldable pub routes_valid : GraphEntry → Bool
unfolding strictly_sorted_nonzero
routes_valid e =
    not (is_empty e.compatible_tp_routes)
    && not (is_empty e.compatible_dcp_routes)
    && strictly_sorted_nonzero e.compatible_tp_routes
    && strictly_sorted_nonzero e.compatible_dcp_routes
    && strictly_sorted_nonzero e.compatible_sampling_routes

unfoldable pub is_prefill_transport : AttentionTransport → Bool
is_prefill_transport none_transport = false
is_prefill_transport prefill_ckv = true
is_prefill_transport prefill_query = true
is_prefill_transport decode_query_lse = false

unfoldable pub decoding_valid : GraphEntry → Bool
unfolding transport_eq
decoding_valid e =
    e.maximum_prompt_tokens == 0
    && transport_eq e.key.attention_transport decode_query_lse
    && not (is_empty e.compatible_sampling_routes)

unfoldable pub mode_valid : StepMode → GraphEntry → Bool
unfolding is_prefill_transport decoding_valid
mode_valid prefill e =
    not (e.maximum_prompt_tokens == 0)
    && e.key.verifier_row_bucket == 0
    && e.key.mtp_depth == 0
    && is_prefill_transport e.key.attention_transport
    && is_empty e.compatible_sampling_routes
mode_valid decode e = decoding_valid e && e.key.mtp_depth == 0
mode_valid verify e = decoding_valid e && not (e.key.mtp_depth == 0)
mode_valid mixed e = false
mode_valid cache_only e = false

unfoldable pub entry_valid : GraphEntry → Bool
entry_valid e = bounds_valid e && routes_valid e && mode_valid e.key.mode e

-- The loop of `validate_entries`, over the identifiers and keys seen so far.
unfoldable pub validate_from : List ℕ → List GraphKey → List GraphEntry → Bool
validate_from ids keys [] = true
validate_from ids keys (e ∷ es) =
    not (any (λ id. id == e.graph_id) ids)
    && not (any (λ key. key_eq key e.key) keys)
    && entry_valid e
    && validate_from (e.graph_id ∷ ids) (e.key ∷ keys) es

unfoldable pub validate_entries : List GraphEntry → Result GraphProfileError (Unit {0})
unfolding validate_from
validate_entries [] = err empty
validate_entries (e ∷ es) = if validate_from [] [] (e ∷ es) then ok tt else err entry

-- Little-endian bytes of a word of the given width.
unfoldable pub to_le_bytes : ℕ → ℕ → List ℕ
to_le_bytes zero n = []
to_le_bytes (suc width) n = (n % 256) ∷ to_le_bytes width (n / 256)

abbrev pub codes : String → List ℕ
codes String.[] = []
codes (String.◌∷◌ c s) = code c ∷ codes s

unfoldable pub u16_list_bytes : List ℕ → List ℕ
unfolding to_le_bytes
u16_list_bytes [] = []
u16_list_bytes (value ∷ values) = to_le_bytes 2 value ++ u16_list_bytes values

-- The bytes that `hash_u16_list` feeds to the hasher.
unfoldable pub hash_u16_list : List ℕ → List ℕ
unfolding to_le_bytes u16_list_bytes
hash_u16_list values = to_le_bytes 2 (min (length values) u16_max) ++ u16_list_bytes values

unfoldable pub entry_bytes : GraphEntry → List ℕ
unfolding to_le_bytes mode_code transport_code hash_u16_list
entry_bytes e =
    to_le_bytes 4 e.graph_id
    ++ (mode_code e.key.mode ∷ [])
    ++ to_le_bytes 2 e.key.sequence_bucket
    ++ to_le_bytes 4 e.key.verifier_row_bucket
    ++ (e.key.mtp_depth ∷ [])
    ++ (transport_code e.key.attention_transport ∷ [])
    ++ to_le_bytes 2 e.maximum_active_sequences
    ++ to_le_bytes 4 e.maximum_prompt_tokens
    ++ to_le_bytes 4 e.maximum_query_rows
    ++ hash_u16_list e.compatible_tp_routes
    ++ hash_u16_list e.compatible_dcp_routes
    ++ hash_u16_list e.compatible_sampling_routes
    ++ to_le_bytes 8 e.maximum_scratch_bytes
    ++ to_le_bytes 8 e.argument_bytes
    ++ to_le_bytes 8 e.graph_object_bytes
    ++ to_le_bytes 8 e.resident_module_bytes
    ++ to_le_bytes 2 e.admission_slo_class

unfoldable pub entries_bytes : List GraphEntry → List ℕ
unfolding entry_bytes
entries_bytes [] = []
entries_bytes (e ∷ es) = entry_bytes e ++ entries_bytes es

unfoldable pub bytes_eq : List ℕ → List ℕ → Bool
bytes_eq [] [] = true
bytes_eq [] (b ∷ bs) = false
bytes_eq (a ∷ as') [] = false
bytes_eq (a ∷ as') (b ∷ bs) = a == b && bytes_eq as' bs

module _ (sha256 : List ℕ → List ℕ) where
  unfoldable pub hash_entries : List GraphEntry → List ℕ
  unfolding to_le_bytes entries_bytes
  hash_entries entries = sha256 (
      codes "glmaxx.graph-profile.v1"
      ++ (0 ∷ [])
      ++ sha256 (codes step_plan_abi_name)
      ++ sha256 (codes kernel_abi_name)
      ++ to_le_bytes 4 (min (length entries) u32_max)
      ++ entries_bytes entries)

  -- `GraphProfile::new`.
  unfoldable pub new_profile : List GraphEntry → Result GraphProfileError GraphProfile
  new_profile entries =
      let sorted = sort_by (λ a b. leb a.graph_id b.graph_id) entries in
      elim (validate_entries sorted) [
        | err e ↦ err e
        | ok _ ↦ ok (record {
          schema = profile_schema;
          step_plan_abi = step_plan_abi_name;
          kernel_abi = kernel_abi_name;
          entries = sorted;
          profile_hash = hash_entries sorted;
        })
      ]

  -- `GraphProfile::verify`.
  unfoldable pub verify_profile : GraphProfile → Result GraphProfileError (Unit {0})
  verify_profile p =
      if not (str_eq p.schema profile_schema)
        || not (str_eq p.step_plan_abi step_plan_abi_name)
        || not (str_eq p.kernel_abi kernel_abi_name)
      then err abi
      else elim (validate_entries p.entries) [
        | err e ↦ err e
        | ok _ ↦ if bytes_eq (hash_entries p.entries) p.profile_hash then ok tt else err hash
      ]
