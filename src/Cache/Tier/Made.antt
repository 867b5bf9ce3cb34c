-- ===== src/Cache/Tier/Made.antt =====
-- A journal that the methods made replays: crates/glm-cache/src/tier.rs, `begin`, `piece_durable`,
-- `publish` and the first loop of `recover`.
use glmaxx.Base.{
  ℕ, ◌≤◌, ◌≡◌, refl, sym, ◌∙◌, subst, inl, inr, Bool, true, false, ◌||◌, not, List, [], ◌∷◌, ◌++◌,
  any, Option, none, some, ◌==◌, Result, ok, err, checked_add, u64_max, Bool-cases, arith,
}
use glmaxx.Base.Ensures.{Ensures, bind-Ensures, or_fail-Ensures, guard-Ensures, Ensures-mono}
use glmaxx.Base.Maps.{Map, find, insert, adjust, find-insert, find-adjust}
use glmaxx.Cache.Tier.{
  Digest, TierPiece, has_piece, TierPieceRecord, TierRecord, TierError, pieces_error, checksum,
  not_durable, already_published, journal_error, overflow, validate_record, find_piece,
}
use glmaxx.Cache.Tier.Recovery.{unit_ok, some-inj}
use glmaxx.Cache.Tier.Journal.{
  JournalEvent, begun, durable, published, TierJournal, new_journal, is_publish, is_durable,
  record_begun, first_begun, open_record, push_event, begin_record, piece_durable, publish,
  RecoveryState, replay_durable, replay_published, replay_event, replay,
}
use glmaxx.Cache.Tier.Tracks.{
  Tracks, replay-push, Tracks-other, Tracks-durable, Tracks-published, flip, later, Tracks-insert,
  Tracks-adjust, replayed_begun,
}

record IsReplayable (j : TierJournal) : Type 0 where
  states : Map RecoveryState
  replayed : replay [] j.events ≡ ok states
  fresh : (id : ℕ) → j.next_transaction ≤ id → find id states ≡ none
  tracks : (id : ℕ) → Tracks (find id states) id j.events

begin_record-IsReplayable :
    (j : TierJournal) (r : TierRecord)
    → IsReplayable j
    → Ensures (λ (k, id). IsReplayable k) (begin_record j r)
unfolding begin_record
begin_record-IsReplayable j r x = bind-Ensures (unit_ok (validate_record r)) (λ u valid.
    bind-Ensures (or_fail-Ensures (checked_add u64_max j.next_transaction 1) overflow) (λ next sum.
      let id = j.next_transaction in
      let new = x.fresh id (omega arith) in
      let state : RecoveryState = record { record_of = r; pieces = []; is_published = false } in
      Ensures.returned (record {
        states = insert id state x.states;
        replayed =
            replay-push [] j.events (begun id r) x.replayed
            ∙ replayed_begun x.states id r valid new;
        fresh = λ i above.
            find-insert i id state x.states
            ∙ later i id (find i x.states) state (ground (arith, sum, above))
                (x.fresh i (ground (arith, sum, above)));
        tracks = λ i. Tracks-insert x.states id i r j.events new x.tracks;
      })))

tracked_state :
    (there : Option RecoveryState) (id : ℕ) (events : List JournalEvent) (r : TierRecord)
    → first_begun id events ≡ some r
    → any (is_publish id) events ≡ false
    → Tracks there id events
    → (state : RecoveryState) × (there ≡ some state)
      × (state.record_of ≡ r)
      × (state.is_published ≡ false)
tracked_state none id events r first unpublished (a, b, c) =
    let impossible : ◌≡◌ {A = Option TierRecord} none (some r) = sym a ∙ first in cc
tracked_state (some state) id events r first unpublished (a, b, c) =
    (state, refl, some-inj (sym a ∙ first), sym b ∙ unpublished)

-- The transaction that is open has a state with its record.
opened :
    (j : TierJournal) (x : IsReplayable j) (id : ℕ)
    → Ensures
        (λ r.
          (state : RecoveryState) × (find id x.states ≡ some state)
          × (state.record_of ≡ r)
          × (state.is_published ≡ false))
        (open_record j id)
unfolding open_record
opened j x id = guard-Ensures (any (is_publish id) j.events) already_published (λ unpublished.
    Ensures-mono (or_fail-Ensures (first_begun id j.events) journal_error)
      (λ r first. tracked_state (find id x.states) id j.events r first unpublished (x.tracks id)))

replayed_durable :
    (m : Map RecoveryState) (id : ℕ) (piece : TierPiece) (digest : Digest) (state : RecoveryState)
    (expected : TierPieceRecord)
    → find id m ≡ some state
    → state.is_published ≡ false
    → find_piece state.record_of piece ≡ some expected
    → (not (expected.sha256 == digest) || has_piece state.pieces piece) ≡ false
    → replay_event m (durable id piece digest)
      ≡ ok (adjust id (λ t. record t { pieces = piece ∷ t.pieces }) m)
unfolding replay_event replay_durable
replayed_durable m id piece digest state expected found unpublished has good =
    rw (found, unpublished, has, good)

replayed_published :
    (m : Map RecoveryState) (id : ℕ) (state : RecoveryState)
    → find id m ≡ some state
    → state.is_published ≡ false
    → any (λ p. not (has_piece state.pieces p.piece)) state.record_of.pieces ≡ false
    → replay_event m (published id) ≡ ok (adjust id (λ t. record t { is_published = true }) m)
unfolding replay_event replay_published
replayed_published m id state found unpublished none_left = rw (found, unpublished, none_left)

adjust-fresh :
    (m : Map RecoveryState) (id i : ℕ) (f : RecoveryState → RecoveryState)
    → find i m ≡ none
    → find i (adjust id f m) ≡ none
adjust-fresh m id i f h = elim (Bool-cases (i == id)) [
  | inl same ↦ rw (find-adjust i id f m, same, h)
  | inr other ↦ rw (find-adjust i id f m, other, h)
]

-- A transaction's own event is replayed after the others.
own_event :
    (j : TierJournal) (x : IsReplayable j) (id : ℕ) (f : RecoveryState → RecoveryState)
    (state : RecoveryState) (e : JournalEvent)
    → find id x.states ≡ some state
    → replay_event x.states e ≡ ok (adjust id f x.states)
    → Tracks (some (f state)) id (j.events ++ (e ∷ []))
    → ((i : ℕ) → (i == id) ≡ false → Tracks (find i x.states) i (j.events ++ (e ∷ [])))
    → IsReplayable (push_event e j)
own_event j x id f state e found replays own other = record {
  states = adjust id f x.states;
  replayed = replay-push [] j.events e x.replayed ∙ replays;
  fresh = λ i above. adjust-fresh x.states id i f (x.fresh i above);
  tracks = λ i. Tracks-adjust x.states id i f state j.events e found own (other i);
}

piece_durable-IsReplayable :
    (j : TierJournal) (id : ℕ) (piece : TierPiece) (observed : Digest)
    → IsReplayable j
    → Ensures IsReplayable (piece_durable j id piece observed)
unfolding piece_durable
piece_durable-IsReplayable j id piece observed x =
    bind-Ensures (opened j x id) (λ r (state, found, same, unpublished).
      bind-Ensures (or_fail-Ensures (find_piece r piece) pieces_error) (λ expected has.
        guard-Ensures (not (observed == expected.sha256)) checksum (λ digest.
          guard-Ensures (any (is_durable id piece) j.events) journal_error (λ first.
            let tracked = subst (λ o. Tracks o id j.events) found (x.tracks id) in
            let e = durable id piece observed in
            Ensures.returned (
              own_event j x id (λ t. record t { pieces = piece ∷ t.pieces }) state e found
                (replayed_durable x.states id piece observed state expected found unpublished
                  (subst (λ q. find_piece q piece ≡ some expected) (sym same) has)
                  (ground (arith, digest, first, tracked.2 piece)))
                (Tracks-durable id j.events state piece observed tracked)
                (λ i other.
                  Tracks-other (find i x.states) i j.events e (unfold record_begun in refl)
                    (unfold is_publish in refl)
                    (λ p. unfold is_durable in ground (arith, flip i id other)) (x.tracks i)))))))

pieces_left :
    (id : ℕ) (events : List JournalEvent) (pieces : List TierPiece) (ps : List TierPieceRecord)
    → ((piece : TierPiece) → any (is_durable id piece) events ≡ has_piece pieces piece)
    → any (λ p. not (any (is_durable id p.piece) events)) ps ≡ false
    → any (λ p. not (has_piece pieces p.piece)) ps ≡ false
pieces_left id events pieces [] same h = refl
pieces_left id events pieces (p ∷ ps) same h =
    let rest = pieces_left id events pieces ps same (ground (arith, h)) in
    ground (arith, h, same p.piece, rest)

publish-IsReplayable :
    (j : TierJournal) (id : ℕ) → IsReplayable j → Ensures IsReplayable (publish j id)
unfolding publish
publish-IsReplayable j id x = bind-Ensures (opened j x id) (λ r (state, found, same, unpublished).
    guard-Ensures (any (λ p. not (any (is_durable id p.piece) j.events)) r.pieces) not_durable
      (λ none_left.
        let tracked = subst (λ o. Tracks o id j.events) found (x.tracks id) in
        let left = pieces_left id j.events state.pieces r.pieces tracked.2 none_left in
        Ensures.returned (
          own_event j x id (λ t. record t { is_published = true }) state (published id) found
            (replayed_published x.states id state found unpublished (
              subst (λ q. any (λ p. not (has_piece state.pieces p.piece)) q.pieces ≡ false)
                (sym same) left))
            (Tracks-published id j.events state tracked)
            (λ i other.
              Tracks-other (find i x.states) i j.events (published id) (unfold record_begun in refl)
                (unfold is_publish in flip i id other) (λ p. unfold is_durable in refl)
                (x.tracks i)))))

pub data JournalCall : Type 0 where
  begin_call : TierRecord → JournalCall
  durable_call : ℕ → TierPiece → Digest → JournalCall
  publish_call : ℕ → JournalCall

abbrev or_same : TierJournal → Result TierError TierJournal → TierJournal
or_same j (ok k) = k
or_same j (err e) = j

abbrev or_same_begun : TierJournal → Result TierError (TierJournal × ℕ) → TierJournal
or_same_begun j (ok (k, id)) = k
or_same_begun j (err e) = j

-- The journal that a call leaves.
unfoldable pub journal_step : TierJournal → JournalCall → TierJournal
journal_step j (begin_call r) = or_same_begun j (begin_record j r)
journal_step j (durable_call id piece observed) = or_same j (piece_durable j id piece observed)
journal_step j (publish_call id) = or_same j (publish j id)

unfoldable pub journal_run : TierJournal → List JournalCall → TierJournal
journal_run j [] = j
journal_run j (c ∷ cs) = journal_run (journal_step j c) cs

or_same-IsReplayable :
    (j : TierJournal) {m : Result TierError TierJournal}
    → IsReplayable j
    → Ensures IsReplayable m
    → IsReplayable (or_same j m)
or_same-IsReplayable j x (Ensures.returned y) = y
or_same-IsReplayable j x Ensures.failed = x

or_same_begun-IsReplayable :
    (j : TierJournal) {m : Result TierError (TierJournal × ℕ)}
    → IsReplayable j
    → Ensures (λ (k, id). IsReplayable k) m
    → IsReplayable (or_same_begun j m)
or_same_begun-IsReplayable j x (Ensures.returned y) = y
or_same_begun-IsReplayable j x Ensures.failed = x

journal_step-IsReplayable :
    (j : TierJournal) (c : JournalCall) → IsReplayable j → IsReplayable (journal_step j c)
unfolding journal_step
journal_step-IsReplayable j (begin_call r) x =
    or_same_begun-IsReplayable j x (begin_record-IsReplayable j r x)
journal_step-IsReplayable j (durable_call id piece observed) x =
    or_same-IsReplayable j x (piece_durable-IsReplayable j id piece observed x)
journal_step-IsReplayable j (publish_call id) x =
    or_same-IsReplayable j x (publish-IsReplayable j id x)

journal_run-IsReplayable :
    (j : TierJournal) (cs : List JournalCall) → IsReplayable j → IsReplayable (journal_run j cs)
unfolding journal_run
journal_run-IsReplayable j [] x = x
journal_run-IsReplayable j (c ∷ cs) x =
    journal_run-IsReplayable (journal_step j c) cs (journal_step-IsReplayable j c x)

new_journal-IsReplayable : IsReplayable new_journal
unfolding new_journal
new_journal-IsReplayable = record {
  states = [];
  replayed = unfold replay in refl;
  fresh = λ id h. unfold find in refl;
  tracks = λ id. unfold find first_begun in (refl, refl, λ piece. refl);
}

abbrev pub publishes : Option RecoveryState → Bool
publishes none = false
publishes (some state) = state.is_published

publishes_tracked :
    (there : Option RecoveryState) (id : ℕ) (events : List JournalEvent)
    → Tracks there id events
    → publishes there ≡ any (is_publish id) events
publishes_tracked none id events (a, b, c) = sym b
publishes_tracked (some state) id events (a, b, c) = sym b

-- Whatever calls of `begin`, `piece_durable` and `publish` made a journal, its events replay without an
-- error, and a transaction is then marked as published exactly when the journal holds its publication.
pub journal_run-replay :
    (cs : List JournalCall) (id : ℕ)
    → (states : Map RecoveryState) × (replay [] (journal_run new_journal cs).events ≡ ok states)
      × (publishes (find id states) ≡ any (is_publish id) (journal_run new_journal cs).events)
journal_run-replay cs id =
    let x = journal_run-IsReplayable new_journal cs new_journal-IsReplayable in
    (x.states, x.replayed, publishes_tracked (find id x.states) id _ (x.tracks id))
