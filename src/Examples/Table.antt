-- ===== src/Examples/Table.antt =====
-- The page table of sequences at work: histories of a table with two pages on each rank.
use glmaxx.Base.{
  ℕ, ◌+◌, ◌≡◌, ◌<◌, refl, true, false, List, [], ◌∷◌, Memᴰ, none, some, ok, length, ltb, arith,
}
use glmaxx.Base.Maps.{find, insert, adjust}
use glmaxx.Cache.Page.{legal, transition, owner_rank}
use glmaxx.Cache.Sequence.{
  page_eq, PhysicalPage, PageTableConfig, SequencePage, Sequence, SequencePageTable,
}
use glmaxx.Cache.Sequence.Store.{
  erase, set_insert, set_has, lookup_page, put_page, insert_page, remove_page, move_page,
  first_free, take_draft, occupy, allocate_at, allocate_page, forget_prefix, quarantine_target,
  quarantine_draft, retire_page, release_reference, release_page, retain_page,
}
use glmaxx.Cache.Sequence.Quarantine.{
  transact, range, table_config_valid, empty_table, new_table, reuse_quarantine_stats, stats_empty,
  bind_reuse_quarantine, set_append, reuse_retired, bound_to, acknowledge_reuse_quarantine,
  when_unbound,
}
use glmaxx.Cache.Sequence.Attach.{
  state_code, state_eq, is_full, attach_pages, enter_sequence, admit_inner, admit_with_prefix,
}
use glmaxx.Cache.Sequence.Append.{
  set_sequence, grown_tokens, seal_if_full, fill_page, fill_tail, grow_page, append_pages,
  append_to, append_inner, append_committed,
}
use glmaxx.Cache.Sequence.Tentative.{
  needs_page, ensure_page, make_tentative, reserve_in, reserve_token, reserve_tentative,
  tail_tokens, begin_inner, begin_tentative, pop_page, pop_pages, restore_page_tokens, restore_tail,
  rollback_tail, rollback_inner, rollback_tentative, release_pages, remove_inner, remove_sequence,
}
use glmaxx.Cache.Sequence.History.{perform, run, TableCall}
use glmaxx.Cache.Sequence.Account.Maps.{occurrences}
use glmaxx.Cache.Sequence.Account.Step.{mentions}
use glmaxx.Cache.Sequence.Account.Pages.{at_page}
use glmaxx.Cache.Sequence.History.Sound.{IsSound, run-IsSound}
use glmaxx.Cache.Sequence.History.Pages.{listed-found, free-unused}
use glmaxx.Cache.Sequence.History.Reclaim.{Reclaims, acknowledge-frees}
use glmaxx.Cache.Sequence.History.Reuse.{run_bound, run-retired}
use glmaxx.Cache.Sequence.Appended.{Appended, append_pages_enough, append_committed-Appended}
use glmaxx.Cache.Sequence.Readers.{SequencePageView, sequence_pages, sequence_pages-total}
use glmaxx.Cache.Sequence.Rollback.{rollback_tentative-begin_tentative}

abbrev small_table : PageTableConfig
small_table = record { target_pages_per_rank = 2; draft_pages_per_rank = 2 }

abbrev empty : SequencePageTable
empty = empty_table small_table

small_table_made : new_table small_table ≡ ok empty
unfolding new_table table_config_valid
small_table_made = refl

-- A sequence with drafts grows past a page, is forked, extended tentatively, rolled back and removed.
abbrev calls : List TableCall
calls =
    TableCall.enter 1 true []
    ∷ TableCall.append 1 70
    ∷ TableCall.fork 1 2
    ∷ TableCall.reserve 1 3
    ∷ TableCall.rollback 1
    ∷ TableCall.remove 1
    ∷ []

run-IsSound_example : IsSound (run empty calls)
run-IsSound_example = run-IsSound small_table empty calls small_table_made

abbrev admitted_calls : List TableCall
admitted_calls = TableCall.enter 1 true [] ∷ []

abbrev grown_calls : List TableCall
grown_calls = TableCall.enter 1 true [] ∷ TableCall.append 1 70 ∷ []

abbrev removed_calls : List TableCall
removed_calls = TableCall.enter 1 true [] ∷ TableCall.append 1 70 ∷ TableCall.remove 1 ∷ []

abbrev bound_calls : List TableCall
bound_calls =
    TableCall.enter 1 true [] ∷ TableCall.append 1 70 ∷ TableCall.remove 1 ∷ TableCall.bind 5 ∷ []

abbrev other_calls : List TableCall
other_calls = TableCall.enter 2 false [] ∷ TableCall.append 2 3 ∷ []

-- An acknowledgement of another generation does not end the quarantine.
abbrev early_calls : List TableCall
early_calls = TableCall.acknowledge 4 ∷ other_calls

abbrev entry : ℕ → ℕ → ℕ → SequencePage
entry ordinal rank id = record {
  ordinal = ordinal;
  physical = record { owner_rank = rank; target_local_page_id = id };
}

abbrev admitted_sequence : Sequence
admitted_sequence = record { mtp = true; committed_tokens = 0; pages = []; tentative = none }

abbrev grown_sequence : Sequence
grown_sequence = record {
  mtp = true;
  committed_tokens = 70;
  pages = entry 0 0 0 ∷ entry 1 1 0 ∷ [];
  tentative = none;
}

admitted_found : find 1 (run empty admitted_calls).sequences ≡ some admitted_sequence
unfolding find insert adjust legal transition owner_rank page_eq erase set_insert set_has
    lookup_page put_page insert_page remove_page move_page first_free take_draft occupy allocate_at
    allocate_page forget_prefix quarantine_target quarantine_draft retire_page release_reference
    release_page retain_page transact range table_config_valid empty_table new_table
    reuse_quarantine_stats stats_empty bind_reuse_quarantine set_append reuse_retired bound_to
    acknowledge_reuse_quarantine when_unbound state_code state_eq is_full attach_pages
    enter_sequence admit_inner admit_with_prefix set_sequence grown_tokens seal_if_full fill_page
    fill_tail grow_page append_pages append_to append_inner append_committed needs_page ensure_page
    make_tentative reserve_in reserve_token reserve_tentative tail_tokens begin_inner
    begin_tentative pop_page pop_pages restore_page_tokens restore_tail rollback_tail rollback_inner
    rollback_tentative release_pages remove_inner remove_sequence perform run occurrences
admitted_found = refl

grown_found : find 1 (run empty grown_calls).sequences ≡ some grown_sequence
unfolding find insert adjust legal transition owner_rank page_eq erase set_insert set_has
    lookup_page put_page insert_page remove_page move_page first_free take_draft occupy allocate_at
    allocate_page forget_prefix quarantine_target quarantine_draft retire_page release_reference
    release_page retain_page transact range table_config_valid empty_table new_table
    reuse_quarantine_stats stats_empty bind_reuse_quarantine set_append reuse_retired bound_to
    acknowledge_reuse_quarantine when_unbound state_code state_eq is_full attach_pages
    enter_sequence admit_inner admit_with_prefix set_sequence grown_tokens seal_if_full fill_page
    fill_tail grow_page append_pages append_to append_inner append_committed needs_page ensure_page
    make_tentative reserve_in reserve_token reserve_tentative tail_tokens begin_inner
    begin_tentative pop_page pop_pages restore_page_tokens restore_tail rollback_tail rollback_inner
    rollback_tentative release_pages remove_inner remove_sequence perform run occurrences
grown_found = refl

listed-found_example :
    (page : PhysicalPage) × (lookup_page (run empty grown_calls) (at_page 0 0) ≡ some page)
    × (page.references ≡ mentions (run empty grown_calls) (at_page 0 0))
listed-found_example =
    listed-found small_table empty grown_calls 1 grown_sequence (entry 0 0 0) small_table_made
      grown_found (Memᴰ.head refl)

one_free : Memᴰ 1 ((run empty grown_calls).free_target 0)
unfolding find insert adjust legal transition owner_rank page_eq erase set_insert set_has
    lookup_page put_page insert_page remove_page move_page first_free take_draft occupy allocate_at
    allocate_page forget_prefix quarantine_target quarantine_draft retire_page release_reference
    release_page retain_page transact range table_config_valid empty_table new_table
    reuse_quarantine_stats stats_empty bind_reuse_quarantine set_append reuse_retired bound_to
    acknowledge_reuse_quarantine when_unbound state_code state_eq is_full attach_pages
    enter_sequence admit_inner admit_with_prefix set_sequence grown_tokens seal_if_full fill_page
    fill_tail grow_page append_pages append_to append_inner append_committed needs_page ensure_page
    make_tentative reserve_in reserve_token reserve_tentative tail_tokens begin_inner
    begin_tentative pop_page pop_pages restore_page_tokens restore_tail rollback_tail rollback_inner
    rollback_tentative release_pages remove_inner remove_sequence perform run occurrences
one_free = Memᴰ.head refl

free-unused_example :
    (ltb 1 (run empty grown_calls).config.target_pages_per_rank ≡ true)
    × (occurrences 1 ((run empty grown_calls).quarantined_target 0) ≡ 0)
    × (lookup_page (run empty grown_calls) (at_page 0 1) ≡ none)
    × (mentions (run empty grown_calls) (at_page 0 1) ≡ 0)
free-unused_example = free-unused small_table empty grown_calls 0 1 small_table_made one_free

one_retired : occurrences 0 ((run empty removed_calls).quarantined_target 0) ≡ 1
unfolding find insert adjust legal transition owner_rank page_eq erase set_insert set_has
    lookup_page put_page insert_page remove_page move_page first_free take_draft occupy allocate_at
    allocate_page forget_prefix quarantine_target quarantine_draft retire_page release_reference
    release_page retain_page transact range table_config_valid empty_table new_table
    reuse_quarantine_stats stats_empty bind_reuse_quarantine set_append reuse_retired bound_to
    acknowledge_reuse_quarantine when_unbound state_code state_eq is_full attach_pages
    enter_sequence admit_inner admit_with_prefix set_sequence grown_tokens seal_if_full fill_page
    fill_tail grow_page append_pages append_to append_inner append_committed needs_page ensure_page
    make_tentative reserve_in reserve_token reserve_tentative tail_tokens begin_inner
    begin_tentative pop_page pop_pages restore_page_tokens restore_tail rollback_tail rollback_inner
    rollback_tentative release_pages remove_inner remove_sequence perform run occurrences
one_retired = refl

run-retired_example :
    (occurrences 0 ((run (run empty removed_calls) other_calls).quarantined_target 0) ≡ 1)
    × (occurrences 0 ((run (run empty removed_calls) other_calls).free_target 0) ≡ 0)
    × (lookup_page (run (run empty removed_calls) other_calls) (at_page 0 0) ≡ none)
run-retired_example =
    run-retired small_table empty removed_calls other_calls 0 0 small_table_made one_retired refl

five_bound : (run empty bound_calls).quarantine_generation ≡ some 5
unfolding find insert adjust legal transition owner_rank page_eq erase set_insert set_has
    lookup_page put_page insert_page remove_page move_page first_free take_draft occupy allocate_at
    allocate_page forget_prefix quarantine_target quarantine_draft retire_page release_reference
    release_page retain_page transact range table_config_valid empty_table new_table
    reuse_quarantine_stats stats_empty bind_reuse_quarantine set_append reuse_retired bound_to
    acknowledge_reuse_quarantine when_unbound state_code state_eq is_full attach_pages
    enter_sequence admit_inner admit_with_prefix set_sequence grown_tokens seal_if_full fill_page
    fill_tail grow_page append_pages append_to append_inner append_committed needs_page ensure_page
    make_tentative reserve_in reserve_token reserve_tentative tail_tokens begin_inner
    begin_tentative pop_page pop_pages restore_page_tokens restore_tail rollback_tail rollback_inner
    rollback_tentative release_pages remove_inner remove_sequence perform run occurrences
five_bound = refl

run_bound_example : run (run empty bound_calls) early_calls ≡ run empty bound_calls
run_bound_example = run_bound (run empty bound_calls) early_calls 5 five_bound refl

one_draft_retired :
    0
    < occurrences 0 ((run empty removed_calls).quarantined_target 1)
      + occurrences 0 ((run empty removed_calls).quarantined_draft 1)
unfolding find insert adjust legal transition owner_rank page_eq erase set_insert set_has
    lookup_page put_page insert_page remove_page move_page first_free take_draft occupy allocate_at
    allocate_page forget_prefix quarantine_target quarantine_draft retire_page release_reference
    release_page retain_page transact range table_config_valid empty_table new_table
    reuse_quarantine_stats stats_empty bind_reuse_quarantine set_append reuse_retired bound_to
    acknowledge_reuse_quarantine when_unbound state_code state_eq is_full attach_pages
    enter_sequence admit_inner admit_with_prefix set_sequence grown_tokens seal_if_full fill_page
    fill_tail grow_page append_pages append_to append_inner append_committed needs_page ensure_page
    make_tentative reserve_in reserve_token reserve_tentative tail_tokens begin_inner
    begin_tentative pop_page pop_pages restore_page_tokens restore_tail rollback_tail rollback_inner
    rollback_tentative release_pages remove_inner remove_sequence perform run occurrences
one_draft_retired = omega arith

removed_unbound : (run empty removed_calls).quarantine_generation ≡ none
unfolding find insert adjust legal transition owner_rank page_eq erase set_insert set_has
    lookup_page put_page insert_page remove_page move_page first_free take_draft occupy allocate_at
    allocate_page forget_prefix quarantine_target quarantine_draft retire_page release_reference
    release_page retain_page transact range table_config_valid empty_table new_table
    reuse_quarantine_stats stats_empty bind_reuse_quarantine set_append reuse_retired bound_to
    acknowledge_reuse_quarantine when_unbound state_code state_eq is_full attach_pages
    enter_sequence admit_inner admit_with_prefix set_sequence grown_tokens seal_if_full fill_page
    fill_tail grow_page append_pages append_to append_inner append_committed needs_page ensure_page
    make_tentative reserve_in reserve_token reserve_tentative tail_tokens begin_inner
    begin_tentative pop_page pop_pages restore_page_tokens restore_tail rollback_tail rollback_inner
    rollback_tentative release_pages remove_inner remove_sequence perform run occurrences
removed_unbound = refl

acknowledge-frees_example : Reclaims (run empty removed_calls) 5 (
    acknowledge_reuse_quarantine (run (run empty removed_calls) (TableCall.bind 5 ∷ early_calls)) 5)
acknowledge-frees_example =
    acknowledge-frees (run empty removed_calls) early_calls 5 1 0 (omega arith) removed_unbound
      (omega arith) one_draft_retired refl

append_pages_enough_example :
    append_pages (70 + 7) (run empty admitted_calls) 1 70
    ≡ append_pages 70 (run empty admitted_calls) 1 70
append_pages_enough_example = append_pages_enough 70 7 (run empty admitted_calls) 1 70 (omega arith)

abbrev appended : SequencePageTable
appended = (append_committed (run empty admitted_calls) 1 70).0

seventy_appended : append_committed (run empty admitted_calls) 1 70 ≡ (appended, ok tt)
unfolding find insert adjust legal transition owner_rank page_eq erase set_insert set_has
    lookup_page put_page insert_page remove_page move_page first_free take_draft occupy allocate_at
    allocate_page forget_prefix quarantine_target quarantine_draft retire_page release_reference
    release_page retain_page transact range table_config_valid empty_table new_table
    reuse_quarantine_stats stats_empty bind_reuse_quarantine set_append reuse_retired bound_to
    acknowledge_reuse_quarantine when_unbound state_code state_eq is_full attach_pages
    enter_sequence admit_inner admit_with_prefix set_sequence grown_tokens seal_if_full fill_page
    fill_tail grow_page append_pages append_to append_inner append_committed needs_page ensure_page
    make_tentative reserve_in reserve_token reserve_tentative tail_tokens begin_inner
    begin_tentative pop_page pop_pages restore_page_tokens restore_tail rollback_tail rollback_inner
    rollback_tentative release_pages remove_inner remove_sequence perform run occurrences
seventy_appended = refl

append_committed-Appended_example : Appended 1 admitted_sequence 70 appended
append_committed-Appended_example =
    append_committed-Appended (run empty admitted_calls) appended 1 70 admitted_sequence
      admitted_found (omega arith) seventy_appended

abbrev begun_table : SequencePageTable
begun_table = (begin_tentative (run empty grown_calls) 1 3).0

three_begun : begin_tentative (run empty grown_calls) 1 3 ≡ (begun_table, ok tt)
unfolding find insert adjust legal transition owner_rank page_eq erase set_insert set_has
    lookup_page put_page insert_page remove_page move_page first_free take_draft occupy allocate_at
    allocate_page forget_prefix quarantine_target quarantine_draft retire_page release_reference
    release_page retain_page transact range table_config_valid empty_table new_table
    reuse_quarantine_stats stats_empty bind_reuse_quarantine set_append reuse_retired bound_to
    acknowledge_reuse_quarantine when_unbound state_code state_eq is_full attach_pages
    enter_sequence admit_inner admit_with_prefix set_sequence grown_tokens seal_if_full fill_page
    fill_tail grow_page append_pages append_to append_inner append_committed needs_page ensure_page
    make_tentative reserve_in reserve_token reserve_tentative tail_tokens begin_inner
    begin_tentative pop_page pop_pages restore_page_tokens restore_tail rollback_tail rollback_inner
    rollback_tentative release_pages remove_inner remove_sequence perform run occurrences
three_begun = refl

three_rolled_back : rollback_tentative begun_table 1 ≡ ((rollback_tentative begun_table 1).0, ok tt)
unfolding find insert adjust legal transition owner_rank page_eq erase set_insert set_has
    lookup_page put_page insert_page remove_page move_page first_free take_draft occupy allocate_at
    allocate_page forget_prefix quarantine_target quarantine_draft retire_page release_reference
    release_page retain_page transact range table_config_valid empty_table new_table
    reuse_quarantine_stats stats_empty bind_reuse_quarantine set_append reuse_retired bound_to
    acknowledge_reuse_quarantine when_unbound state_code state_eq is_full attach_pages
    enter_sequence admit_inner admit_with_prefix set_sequence grown_tokens seal_if_full fill_page
    fill_tail grow_page append_pages append_to append_inner append_committed needs_page ensure_page
    make_tentative reserve_in reserve_token reserve_tentative tail_tokens begin_inner
    begin_tentative pop_page pop_pages restore_page_tokens restore_tail rollback_tail rollback_inner
    rollback_tentative release_pages remove_inner remove_sequence perform run occurrences
three_rolled_back = refl

rollback_tentative-begin_tentative_example :
    find 1 (rollback_tentative begun_table 1).0.sequences ≡ some grown_sequence
rollback_tentative-begin_tentative_example =
    rollback_tentative-begin_tentative (run empty grown_calls) begun_table
      (rollback_tentative begun_table 1).0 1 3 grown_sequence grown_found three_begun
      three_rolled_back

sequence_pages-total_example :
    (vs : List SequencePageView) × (sequence_pages (run empty grown_calls) 1 ≡ ok vs)
    × (length vs ≡ length grown_sequence.pages)
sequence_pages-total_example =
    sequence_pages-total small_table empty grown_calls 1 grown_sequence small_table_made grown_found
