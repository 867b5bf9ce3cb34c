-- ===== src/Examples/Tiers.antt =====
-- A prefix page in the index and in the journal of its tier record, under a hash that is always seven.
use glmaxx.Base.{
  ℕ, ◌+◌, ◌*◌, ◌≤◌, ◌≡◌, refl, false, List, [], ◌∷◌, any, replicate, length, take, All, none, some,
  ◌==◌, if◌then◌else◌, ok, arith,
}
use glmaxx.Base.Maps.{Map, find, insert, adjust}
use glmaxx.Cache.Budget.{page_tokens}
use glmaxx.Cache.Tier.{
  Digest, dram, target_kv, target_indexer, piece_code, piece_eq, expected_bytes, TierPieceRecord,
  TierRecord, required_pieces, tier_alignment, has_piece, piece_valid, overlaps, check_pieces,
  validate_record, target_kv_page_bytes, target_indexer_page_bytes,
}
use glmaxx.Cache.Tier.Journal.{
  new_journal, is_publish, RecoveryState, begun, durable, published, TierJournal, replay_begun,
  replay_durable, replay_published, replay_event, replay, supersede, add_record, add_published,
  add_all, recover,
}
use glmaxx.Cache.Tier.Made.{
  JournalCall, begin_call, durable_call, publish_call, journal_run, publishes, journal_run-replay,
}
use glmaxx.Cache.Tier.Recovery.{IsRecovered, recover-IsRecovered}
use glmaxx.Cache.Prefix.{
  or_zero, from_be_bytes, PrefixPage, PrefixMatch, PrefixIndex, chunks_after, chunks, parent_eq,
  replaces, enter_page, enter_pages, derive, plan_page, plan_pages, insert_pages, derive_keys,
  usable, collect, matching, match_of, first_of, longest_match_with_capability, longest_match,
  page_references,
}
use glmaxx.Cache.Tier.Sidecar.{
  interleave, encode_draft_sidecar_payload, decode_draft_sidecar_payload,
  decode-encode_draft_sidecar_payload,
}
use glmaxx.Cache.Prefix.Longest.{Held, longest_match-Held}
use glmaxx.Cache.Prefix.Maximal.{Chain, longest_match_most}
use glmaxx.Cache.Prefix.Inserted.{longest_match-insert_pages, page_references-insert_pages}

abbrev seven : List ℕ → List ℕ
seven bytes = 7 ∷ []

abbrev kv_piece : TierPieceRecord
kv_piece = record {
  piece = target_kv;
  byte_length = target_kv_page_bytes;
  storage_offset = 0;
  sha256 = 11;
}

abbrev indexer_piece : TierPieceRecord
indexer_piece = record {
  piece = target_indexer;
  byte_length = target_indexer_page_bytes;
  storage_offset = target_kv_page_bytes;
  sha256 = 12;
}

abbrev page_record : TierRecord
page_record = record {
  namespace = 5;
  page_key = 7;
  generation = 1;
  tier = dram;
  mtp = false;
  pieces = kv_piece ∷ indexer_piece ∷ [];
}

abbrev tokens : List ℕ
tokens = replicate 64 3

abbrev before : PrefixIndex
before = record { namespace = 5; pages = [] }

abbrev entered_page : PrefixPage
entered_page = record { parent = none; record_of = page_record; references = 1 }

abbrev after : PrefixIndex
after = record { namespace = 5; pages = (7, entered_page) ∷ [] }

page_inserted : insert_pages seven before tokens (page_record ∷ []) ≡ ok (after, 7 ∷ [])
unfolding insert_pages chunks_after plan_pages plan_page derive from_be_bytes replaces enter_pages
    enter_page validate_record check_pieces piece_valid overlaps required_pieces tier_alignment
    has_piece piece_eq piece_code expected_bytes find insert
page_inserted = refl

longest_match-insert_pages_example :
    (r : PrefixMatch) × (longest_match seven after tokens ≡ some r)
    × (r.page_keys ≡ 7 ∷ [])
    × (r.matched_tokens ≡ length tokens)
    × (7 ∷ [] ≡ derive_keys seven 5 none (chunks tokens))
longest_match-insert_pages_example =
    longest_match-insert_pages seven before after tokens (page_record ∷ []) (7 ∷ []) page_inserted

page_references-insert_pages_example : page_references after 7 ≡ (
    if any (λ k. k == 7) (7 ∷ [])
    then some (or_zero (page_references before 7) + 1)
    else page_references before 7)
page_references-insert_pages_example =
    page_references-insert_pages seven before after tokens (page_record ∷ []) (7 ∷ []) 7
      page_inserted

abbrev whole_match : PrefixMatch
whole_match = record {
  page_keys = 7 ∷ [];
  matched_tokens = 64;
  terminal_tier = dram;
  terminal_generation = 1;
}

page_matched : longest_match_with_capability seven after tokens false ≡ some whole_match
unfolding longest_match_with_capability matching match_of collect usable parent_eq chunks_after
    derive from_be_bytes find
page_matched = refl

longest_match-Held_example :
    (whole_match.page_keys
      ≡ take (length whole_match.page_keys) (derive_keys seven 5 none (chunks tokens)))
    × (whole_match.matched_tokens ≡ length whole_match.page_keys * page_tokens)
    × (whole_match.matched_tokens ≤ length tokens)
    × (matched : List (Digest × PrefixPage)) × (whole_match.page_keys ≡ first_of matched)
    × All (Held after false) matched
longest_match-Held_example = longest_match-Held seven after tokens false whole_match page_matched

entered-Chain :
    Chain after false none (take 1 (derive_keys seven after.namespace none (chunks tokens)))
unfolding find derive_keys derive from_be_bytes chunks_after
entered-Chain = ((entered_page, refl, refl, refl), tt)

longest_match_most_example :
    (r : PrefixMatch) × (longest_match_with_capability seven after tokens false ≡ some r)
    × (1 * page_tokens ≤ r.matched_tokens)
longest_match_most_example =
    longest_match_most seven after tokens false 1 (omega arith) (omega arith) entered-Chain

abbrev journal : TierJournal
journal = record {
  events =
      begun 1 page_record
      ∷ durable 1 target_kv 11
      ∷ durable 1 target_indexer 12
      ∷ published 1
      ∷ begun 2 page_record
      ∷ [];
  next_transaction = 3;
}

journal_recovered : recover journal ≡ ok ((7, page_record) ∷ [])
unfolding recover replay replay_event replay_begun replay_durable replay_published add_all
    add_published add_record supersede validate_record check_pieces piece_valid overlaps
    required_pieces tier_alignment has_piece piece_eq piece_code expected_bytes find insert adjust
journal_recovered = refl

page_found : find 7 ((7, page_record) ∷ []) ≡ some page_record
unfolding find
page_found = refl

recover-IsRecovered_example : IsRecovered journal.events 7 page_record
recover-IsRecovered_example =
    recover-IsRecovered journal ((7, page_record) ∷ []) 7 page_record journal_recovered page_found

abbrev sidecar_kv : List ℕ
sidecar_kv = replicate 23_552 1

abbrev sidecar_indexer : List ℕ
sidecar_indexer = replicate 8_448 2

draft_encoded :
    encode_draft_sidecar_payload sidecar_kv sidecar_indexer
    ≡ ok (interleave page_tokens sidecar_kv sidecar_indexer)
unfolding encode_draft_sidecar_payload
draft_encoded = refl

decode-encode_draft_sidecar_payload_example :
    decode_draft_sidecar_payload (interleave page_tokens sidecar_kv sidecar_indexer)
    ≡ ok (sidecar_kv, sidecar_indexer)
decode-encode_draft_sidecar_payload_example =
    decode-encode_draft_sidecar_payload sidecar_kv sidecar_indexer
      (interleave page_tokens sidecar_kv sidecar_indexer) draft_encoded

abbrev journal_calls : List JournalCall
journal_calls =
    begin_call page_record
    ∷ durable_call 1 target_kv 11
    ∷ publish_call 1
    ∷ durable_call 1 target_indexer 12
    ∷ publish_call 1
    ∷ []

journal_run-replay_example :
    (states : Map RecoveryState) × (replay [] (journal_run new_journal journal_calls).events
      ≡ ok states)
    × (publishes (find 1 states)
        ≡ any (is_publish 1) (journal_run new_journal journal_calls).events)
journal_run-replay_example = journal_run-replay journal_calls 1
