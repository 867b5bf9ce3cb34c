-- ===== src/Cache/Sequence/History/Reuse.antt =====
-- The quarantine of retired pages in histories of the page table: crates/glm-cache/src/sequence.rs.
use glmaxx.Base.{
  ℕ, ◌≤◌, ◌≡◌, refl, ap, sym, ◌∙◌, inl, inr, Bool, true, false, ◌||◌, not, List, [], ◌∷◌, all,
  &&-eq_true, none, some, ltb, ◌==◌, if◌then◌else◌, is_some, ok, Bool-cases, arith,
}
use glmaxx.Base.Maps.{Ascending}
use glmaxx.Cache.Sequence.{PageTableConfig, SequencePageTable, Outcome}
use glmaxx.Cache.Sequence.Store.{lookup_page}
use glmaxx.Cache.Sequence.Quarantine.{
  transact, when_unbound, new_table, bind_reuse_quarantine, bound_to, acknowledge_reuse_quarantine,
  reuse_quarantine_stats, stats_empty,
}
use glmaxx.Cache.Sequence.Attach.{admit_with_prefix, fork_sequence}
use glmaxx.Cache.Sequence.Append.{append_committed}
use glmaxx.Cache.Sequence.Tentative.{
  begin_tentative, commit_tentative, rollback_tentative, remove_sequence,
}
use glmaxx.Cache.Sequence.Account.Maps.{occurrences}
use glmaxx.Cache.Sequence.Account.Pages.{at_page, held_at}
use glmaxx.Cache.Sequence.History.{TableCall, perform, run, is_quarantine_call, perform-Keeps}
use glmaxx.Cache.Sequence.History.Sound.{IsSound, run-IsSound, run_calls-IsSound, perform-IsSound}
use glmaxx.Cache.Sequence.History.Pages.{none-present}

abbrev pub is_acknowledge : TableCall → Bool
is_acknowledge (TableCall.acknowledge generation) = true
is_acknowledge (TableCall.bind generation) = false
is_acknowledge (TableCall.enter id mtp attachments) = false
is_acknowledge (TableCall.fork source destination) = false
is_acknowledge (TableCall.append id tokens) = false
is_acknowledge (TableCall.reserve id tokens) = false
is_acknowledge (TableCall.commit id tokens) = false
is_acknowledge (TableCall.rollback id) = false
is_acknowledge (TableCall.remove id) = false

refused :
    (s : SequencePageTable) (r : Outcome SequencePageTable) {generation : ℕ}
    → s.quarantine_generation ≡ some generation
    → (transact s (when_unbound s r)).0 ≡ s
unfolding transact when_unbound
refused s r bound = rw bound

bind-refused :
    (s : SequencePageTable) (next : ℕ) {generation : ℕ}
    → s.quarantine_generation ≡ some generation
    → (bind_reuse_quarantine s next).0 ≡ s
unfolding bind_reuse_quarantine
bind-refused s next bound =
    let test : (next == 0 || is_some s.quarantine_generation) ≡ true = ground (arith, bound) in
    rw test

-- The acknowledgement of the given generation.
abbrev pub acknowledges : ℕ → TableCall → Bool
acknowledges generation (TableCall.acknowledge next) = generation == next
acknowledges generation (TableCall.bind next) = false
acknowledges generation (TableCall.enter id mtp attachments) = false
acknowledges generation (TableCall.fork source destination) = false
acknowledges generation (TableCall.append id tokens) = false
acknowledges generation (TableCall.reserve id tokens) = false
acknowledges generation (TableCall.commit id tokens) = false
acknowledges generation (TableCall.rollback id) = false
acknowledges generation (TableCall.remove id) = false

acknowledge-refused :
    (s : SequencePageTable) (next : ℕ) {generation : ℕ}
    → s.quarantine_generation ≡ some generation
    → (generation == next) ≡ false
    → (acknowledge_reuse_quarantine s next).0 ≡ s
unfolding acknowledge_reuse_quarantine bound_to
acknowledge-refused s next bound other =
    let test : bound_to s.quarantine_generation next ≡ false = rw bound other in rw test

perform_bound :
    (s : SequencePageTable) (call : TableCall) (generation : ℕ)
    → s.quarantine_generation ≡ some generation
    → acknowledges generation call ≡ false
    → perform s call ≡ s
unfolding perform admit_with_prefix fork_sequence append_committed begin_tentative commit_tentative
    rollback_tentative remove_sequence
perform_bound s (TableCall.enter id mtp attachments) g bound h = refused s _ bound
perform_bound s (TableCall.fork source destination) g bound h = refused s _ bound
perform_bound s (TableCall.append id tokens) g bound h = refused s _ bound
perform_bound s (TableCall.reserve id tokens) g bound h = refused s _ bound
perform_bound s (TableCall.commit id tokens) g bound h = refused s _ bound
perform_bound s (TableCall.rollback id) g bound h = refused s _ bound
perform_bound s (TableCall.remove id) g bound h = refused s _ bound
perform_bound s (TableCall.bind next) g bound h = bind-refused s next bound
perform_bound s (TableCall.acknowledge next) g bound h = acknowledge-refused s next bound h

-- While a quarantine generation is bound, no sequence of calls changes the table before one of them
-- acknowledges that generation; acknowledgements of other generations among them are refused too.
pub run_bound :
    (s : SequencePageTable) (calls : List TableCall) (generation : ℕ)
    → s.quarantine_generation ≡ some generation
    → all (λ call. not (acknowledges generation call)) calls ≡ true
    → run s calls ≡ s
unfolding run
run_bound s [] generation bound h = refl
run_bound s (call ∷ calls) generation bound h =
    let (first, rest) = &&-eq_true (not (acknowledges generation call)) _ h in
    let same = perform_bound s call generation bound (ground arith) in
    ap (λ (t : SequencePageTable). run t calls) same ∙ run_bound s calls generation bound rest

bind-lists :
    (s : SequencePageTable) (generation rank : ℕ)
    → ((bind_reuse_quarantine s generation).0.free_target rank ≡ s.free_target rank)
      × ((bind_reuse_quarantine s generation).0.quarantined_target rank ≡ s.quarantined_target rank)
unfolding bind_reuse_quarantine
bind-lists s generation rank =
    elim (Bool-cases (generation == 0 || is_some s.quarantine_generation)) [
      | inl h ↦ rw h (refl, refl)
      | inr h ↦ rw h (elim (Bool-cases (stats_empty (reuse_quarantine_stats s))) [
        | inl k ↦ rw k (refl, refl)
        | inr k ↦ rw k (refl, refl)
      ])
    ]

at_most_one : (a b : ℕ) → (if ltb a b then 1 else 0) ≤ 1
at_most_one a b = ground arith

bind_retired :
    (s : SequencePageTable) (call : TableCall) (rank id : ℕ)
    → is_quarantine_call call ≡ true
    → is_acknowledge call ≡ false
    → (occurrences id ((perform s call).free_target rank) ≤ occurrences id (s.free_target rank))
      × (occurrences id (s.quarantined_target rank)
          ≤ occurrences id ((perform s call).quarantined_target rank))
unfolding perform
bind_retired s (TableCall.bind generation) rank id h k =
    let (free, retired) = bind-lists s generation rank in
    rw (free, retired) (omega arith, omega arith)
bind_retired s (TableCall.acknowledge generation) rank id h k = cc
bind_retired s (TableCall.enter i mtp attachments) rank id h k = cc
bind_retired s (TableCall.fork source destination) rank id h k = cc
bind_retired s (TableCall.append i tokens) rank id h k = cc
bind_retired s (TableCall.reserve i tokens) rank id h k = cc
bind_retired s (TableCall.commit i tokens) rank id h k = cc
bind_retired s (TableCall.rollback i) rank id h k = cc
bind_retired s (TableCall.remove i) rank id h k = cc

-- One call that is no acknowledgement frees no page and keeps the retired.
call_retired :
    (s : SequencePageTable) (call : TableCall) (rank id : ℕ)
    → Ascending 0 s.sequences
    → is_acknowledge call ≡ false
    → (occurrences id ((perform s call).free_target rank) ≤ occurrences id (s.free_target rank))
      × (occurrences id (s.quarantined_target rank)
          ≤ occurrences id ((perform s call).quarantined_target rank))
call_retired s call rank id order h = elim (Bool-cases (is_quarantine_call call)) [
  | inl quarantine ↦ bind_retired s call rank id quarantine h
  | inr other ↦
      let step = perform-Keeps s call order other in
      (step.not_freed rank id, step.still_retired rank id)
]

calls_retired :
    (s : SequencePageTable) (calls : List TableCall) (rank id : ℕ)
    → IsSound s
    → all (λ call. not (is_acknowledge call)) calls ≡ true
    → (occurrences id ((run s calls).free_target rank) ≤ occurrences id (s.free_target rank))
      × (occurrences id (s.quarantined_target rank)
          ≤ occurrences id ((run s calls).quarantined_target rank))
unfolding run
calls_retired s [] rank id sound h = (omega arith, omega arith)
calls_retired s (call ∷ calls) rank id sound h =
    let (first, rest) = &&-eq_true (not (is_acknowledge call)) _ h in
    let one = call_retired s call rank id sound.ordered (ground arith) in
    let more = calls_retired (perform s call) calls rank id (perform-IsSound s call sound) rest in
    (omega (arith, one.0, more.0), omega (arith, one.1, more.1))

-- A target page that some calls on a new table left retired stays retired through any further calls
-- before one of them is an acknowledgement: it is not free, and no page is in use under its number.
pub run-retired :
    (c : PageTableConfig) (s : SequencePageTable) (before after : List TableCall) (rank id : ℕ)
    → new_table c ≡ ok s
    → occurrences id ((run s before).quarantined_target rank) ≡ 1
    → all (λ call. not (is_acknowledge call)) after ≡ true
    → (occurrences id ((run (run s before) after).quarantined_target rank) ≡ 1)
      × (occurrences id ((run (run s before) after).free_target rank) ≡ 0)
      × (lookup_page (run (run s before) after) (at_page rank id) ≡ none)
run-retired c s before after rank id made retired calls =
    let sound = run-IsSound c s before made in
    let later = run_calls-IsSound (run s before) after sound in
    let kept = calls_retired (run s before) after rank id sound calls in
    let all_of = sym (held_at (run (run s before) after) rank id) ∙ later.partitioned rank id in
    let one = at_most_one id (run (run s before) after).config.target_pages_per_rank in
    (
      omega (arith, kept.1, retired, all_of, one),
      omega (arith, kept.1, retired, all_of, one),
      none-present _ (omega (arith, kept.1, retired, all_of, one)),
    )
