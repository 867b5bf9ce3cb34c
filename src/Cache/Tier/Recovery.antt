-- ===== src/Cache/Tier/Recovery.antt =====
-- The recovery of a journal returns what was published and durable: crates/glm-cache/src/tier.rs.
use glmaxx.Base.{
  ℕ, ◌≡◌, refl, sym, ◌∙◌, subst, inl, inr, Bool, true, false, ◌||◌, not, List, [], ◌∷◌, Memᴰ, any,
  All, All-mem, All-of_mem, Option, none, some, leb, ◌==◌, is_some, Result, ok, err, Bool-cases,
  any-mem, arith,
}
use glmaxx.Base.Ensures.{
  Ensures, bind-Ensures, or_fail-Ensures, if-Ensures, guard-Ensures, Ensures-eq_ok, any-Ensures,
}
use glmaxx.Base.Maps.{Map, find, Entries, find-Entries, insert-Entries, adjust-Entries}
use glmaxx.Cache.Tier.{
  TierPiece, target_kv, target_indexer, draft_sidecar, piece_code, piece_eq, has_piece,
  TierPieceRecord, TierRecord, TierRecordRelation, exact_dedup, mtp_upgrade, retain_mtp, TierError,
  pieces_error, checksum, not_durable, journal_error, validate_record, find_piece, relation_to,
}
use glmaxx.Cache.Tier.Journal.{
  JournalEvent, begun, durable, published, TierJournal, RecoveryState, replay_begun, replay_durable,
  replay_published, replay_event, replay, supersede, add_record, add_published, add_all, recover,
}

-- The journal says that the piece of the record is durable, under the record's digest for it.
abbrev pub IsDurable : List JournalEvent → ℕ → TierRecord → TierPiece → Type 0
IsDurable events id r piece =
    (p : TierPieceRecord) × (find_piece r piece ≡ some p) × Memᴰ (durable id piece p.sha256) events

-- What the journal says of a transaction that is marked as published.
abbrev IsComplete : List JournalEvent → ℕ → TierRecord → Bool → Type 0
IsComplete events id r true =
    Memᴰ (published id) events × All (λ p. IsDurable events id r p.piece) r.pieces
IsComplete events id r false = Unit

-- The state of a transaction is what the events say.
record Replayed (events : List JournalEvent) (id : ℕ) (state : RecoveryState) : Type 0 where
  began : Memᴰ (begun id state.record_of) events
  valid : validate_record state.record_of ≡ ok tt
  durables : All (IsDurable events id state.record_of) state.pieces
  complete : IsComplete events id state.record_of state.is_published

-- A record that the journal published under its key.
abbrev pub IsRecovered : List JournalEvent → ℕ → TierRecord → Type 0
IsRecovered events key r =
    (r.page_key ≡ key)
    × (validate_record r ≡ ok tt)
    × (id : ℕ) × Memᴰ (begun id r) events
    × Memᴰ (published id) events
    × All (λ p. IsDurable events id r p.piece) r.pieces

pub unit_ok : (m : Result TierError (Unit {0})) → Ensures (λ u. m ≡ ok tt) m
unit_ok (ok tt) = Ensures.returned refl
unit_ok (err e) = Ensures.failed

piece_eq→eq : (p q : TierPiece) → piece_eq p q ≡ true → p ≡ q
unfolding piece_eq piece_code
piece_eq→eq target_kv target_kv h = refl
piece_eq→eq target_kv target_indexer h = cc
piece_eq→eq target_kv draft_sidecar h = cc
piece_eq→eq target_indexer target_kv h = cc
piece_eq→eq target_indexer target_indexer h = refl
piece_eq→eq target_indexer draft_sidecar h = cc
piece_eq→eq draft_sidecar target_kv h = cc
piece_eq→eq draft_sidecar target_indexer h = cc
piece_eq→eq draft_sidecar draft_sidecar h = refl

pub some-inj : {A : Type 0} {a b : A} → some a ≡ some b → a ≡ b
some-inj h = cc

||-right : (a b : Bool) → (a || b) ≡ false → b ≡ false
||-right a b h = ground arith

digest_same : (a b : ℕ) (c : Bool) → (not (a == b) || c) ≡ false → b ≡ a
digest_same a b c h = ground arith

module _ (events : List JournalEvent) where
  abbrev Transactions : Map RecoveryState → Type 0
  Transactions m = Entries (Replayed events) m

  has_piece-IsDurable :
      (id : ℕ) (r : TierRecord) (pieces : List TierPiece) (p : TierPieceRecord)
      → All (IsDurable events id r) pieces
      → has_piece pieces p.piece ≡ true
      → IsDurable events id r p.piece
  unfolding has_piece
  has_piece-IsDurable id r pieces p all_durable h =
      let (q, m, same) = any-mem (λ x. piece_eq x p.piece) pieces h in
      subst (IsDurable events id r) (piece_eq→eq q p.piece same)
        (All-mem (IsDurable events id r) m all_durable)

  none_missing :
      (id : ℕ) (r : TierRecord) (pieces : List TierPiece) (ps : List TierPieceRecord)
      → All (IsDurable events id r) pieces
      → any (λ p. not (has_piece pieces p.piece)) ps ≡ false
      → All (λ p. IsDurable events id r p.piece) ps
  none_missing id r pieces [] all_durable h = tt
  none_missing id r pieces (p ∷ ps) all_durable h = elim (Bool-cases (has_piece pieces p.piece)) [
    | inl here ↦ (
      has_piece-IsDurable id r pieces p all_durable here,
      none_missing id r pieces ps all_durable (rw here at h),
    )
    | inr missing ↦ let impossible : true ≡ false = rw missing at h in cc
  ]

  more_durable :
      (id : ℕ) (state : RecoveryState) (piece : TierPiece) (expected : TierPieceRecord)
      → Replayed events id state
      → find_piece state.record_of piece ≡ some expected
      → Memᴰ (durable id piece expected.sha256) events
      → Replayed events id (record state { pieces = piece ∷ state.pieces })
  more_durable id state piece expected replayed has there = record {
    began = replayed.began;
    valid = replayed.valid;
    durables = ((expected, has, there), replayed.durables);
    complete = replayed.complete;
  }

  now_complete :
      (id : ℕ) (state : RecoveryState)
      → Replayed events id state
      → Memᴰ (published id) events
      → any (λ p. not (has_piece state.pieces p.piece)) state.record_of.pieces ≡ false
      → Replayed events id (record state { is_published = true })
  now_complete id state replayed there none_left = record {
    began = replayed.began;
    valid = replayed.valid;
    durables = replayed.durables;
    complete = (
      there,
      none_missing id state.record_of state.pieces state.record_of.pieces replayed.durables
          none_left,
    );
  }

  replay_event-Transactions :
      (m : Map RecoveryState) (e : JournalEvent)
      → Memᴰ e events
      → Transactions m
      → Ensures Transactions (replay_event m e)
  unfolding replay_event replay_begun replay_durable replay_published
  replay_event-Transactions m (begun id r) there h =
      bind-Ensures (unit_ok (validate_record r)) (λ u valid.
        guard-Ensures (is_some (find id m)) journal_error (λ new. Ensures.returned (
          insert-Entries (Replayed events) id _ m
            (record { began = there; valid = valid; durables = tt; complete = tt }) h)))
  replay_event-Transactions m (durable id piece digest) there h =
      bind-Ensures (or_fail-Ensures (find id m) journal_error) (λ state found.
        guard-Ensures state.is_published journal_error (λ unpublished.
          bind-Ensures (or_fail-Ensures (find_piece state.record_of piece) pieces_error)
            (λ expected has.
              guard-Ensures (not (expected.sha256 == digest) || has_piece state.pieces piece)
                checksum
                (λ good. Ensures.returned (
                  adjust-Entries (Replayed events) id _ m
                    (λ t e replayed.
                      let same : state ≡ t = some-inj (sym found ∙ e) in
                      more_durable id t piece expected replayed
                        (subst (λ x. find_piece x.record_of piece ≡ some expected) same has)
                        (subst (λ d. Memᴰ (durable id piece d) events) (digest_same _ _ _ good)
                          there))
                    h)))))
  replay_event-Transactions m (published id) there h =
      bind-Ensures (or_fail-Ensures (find id m) journal_error) (λ state found.
        guard-Ensures
          (state.is_published
            || any (λ p. not (has_piece state.pieces p.piece)) state.record_of.pieces)
          not_durable
          (λ good. Ensures.returned (
            adjust-Entries (Replayed events) id _ m
              (λ t e replayed.
                let same : state ≡ t = some-inj (sym found ∙ e) in
                now_complete id t replayed there (
                  subst
                    (λ x. any (λ p. not (has_piece x.pieces p.piece)) x.record_of.pieces ≡ false)
                    same (||-right _ _ good)))
              h)))

  replay-Transactions :
      (m : Map RecoveryState) (es : List JournalEvent)
      → All (λ e. Memᴰ e events) es
      → Transactions m
      → Ensures Transactions (replay m es)
  unfolding replay
  replay-Transactions m [] there h = Ensures.returned h
  replay-Transactions m (e ∷ es) there h =
      bind-Ensures (replay_event-Transactions m e there.0 h)
        (λ next k. replay-Transactions next es there.1 k)

  abbrev Recovered : Map TierRecord → Type 0
  Recovered m = Entries (IsRecovered events) m

  superseded :
      (m : Map TierRecord) (existing r : TierRecord) (relation : TierRecordRelation)
      → IsRecovered events r.page_key r
      → Recovered m
      → Ensures Recovered (supersede m existing r relation)
  unfolding supersede
  superseded m existing r exact_dedup good h = Ensures.returned h
  superseded m existing r retain_mtp good h = Ensures.returned h
  superseded m existing r mtp_upgrade good h =
      guard-Ensures (leb r.generation existing.generation) journal_error
        (λ newer. Ensures.returned (insert-Entries (IsRecovered events) r.page_key r m good h))

  finished :
      (id : ℕ) (state : RecoveryState)
      → Replayed events id state
      → state.is_published ≡ true
      → IsRecovered events state.record_of.page_key state.record_of
  finished id state replayed done =
      let complete = subst (IsComplete events id state.record_of) done replayed.complete in
      (refl, replayed.valid, id, replayed.began, complete.0, complete.1)

  add_record-Recovered :
      (m : Map TierRecord) (r : TierRecord) (existing : Option TierRecord)
      → IsRecovered events r.page_key r
      → Recovered m
      → Ensures Recovered (add_record m r existing)
  unfolding add_record supersede
  add_record-Recovered m r none good h =
      Ensures.returned (insert-Entries (IsRecovered events) r.page_key r m good h)
  add_record-Recovered m r (some existing) good h =
      bind-Ensures (any-Ensures (relation_to existing r))
        (λ relation e. superseded m existing r relation good h)

  add_all-Recovered :
      (m : Map TierRecord) (states : Map RecoveryState)
      → Transactions states
      → Recovered m
      → Ensures Recovered (add_all m states)
  unfolding add_all add_published
  add_all-Recovered m [] t h = Ensures.returned h
  add_all-Recovered m ((id, state) ∷ states) t h =
      bind-Ensures
        (if-Ensures (not state.is_published) (λ k. Ensures.returned h)
          (λ k.
            let done = finished id state t.0 (ground (arith, k)) in
            add_record-Recovered m state.record_of (find state.record_of.page_key m) done h))
        (λ next k. add_all-Recovered next states t.1 k)

-- What the recovery returns under a key is a valid record for that key, of a transaction that the
-- journal began and published, and of which the journal holds each piece as durable, under a digest
-- that the record has for the piece.
pub recover-IsRecovered :
    (j : TierJournal) (recovered : Map TierRecord) (key : ℕ) (r : TierRecord)
    → recover j ≡ ok recovered
    → find key recovered ≡ some r
    → IsRecovered j.events key r
unfolding recover
recover-IsRecovered j recovered key r done found =
    find-Entries (IsRecovered j.events) key recovered
      (Ensures-eq_ok
        (bind-Ensures
          (replay-Transactions j.events [] j.events
            (All-of_mem (λ e. Memᴰ e j.events) j.events (λ e m. m)) tt)
          (λ transactions t. add_all-Recovered j.events [] transactions t tt))
        done)
      found
