-- ===== src/Cache/Tier/Journal.antt =====
-- The journal of tier records and its recovery: crates/glm-cache/src/tier.rs, `TierJournal`. Of the map
-- from durable pieces to their digests the recovery reads the keys alone.
use glmaxx.Base.{
  ℕ, Bool, true, false, ◌&&◌, ◌||◌, not, List, [], ◌∷◌, ◌++◌, any, max, Option, none, some, leb,
  ◌==◌, if◌then◌else◌, is_some, Result, ok, err, or_fail, ◌>>=◌, checked_add, u64_max,
}
use glmaxx.Base.Maps.{Map, find, insert, adjust}
use glmaxx.Cache.Tier.{
  Digest, TierPiece, piece_eq, has_piece, TierRecord, TierRecordRelation, exact_dedup, mtp_upgrade,
  retain_mtp, TierError, pieces_error, checksum, not_durable, already_published, journal_error,
  overflow, validate_record, find_piece, relation_to,
}

pub data JournalEvent : Type 0 where
  begun : ℕ → TierRecord → JournalEvent
  durable : ℕ → TierPiece → Digest → JournalEvent
  published : ℕ → JournalEvent

pub record TierJournal : Type 0 where
  pub events : List JournalEvent
  pub next_transaction : ℕ

unfoldable pub new_journal : TierJournal
new_journal = record { events = []; next_transaction = 1 }

unfoldable pub is_publish : ℕ → JournalEvent → Bool
is_publish transaction (begun id r) = false
is_publish transaction (durable id piece h) = false
is_publish transaction (published id) = id == transaction

-- The event is that the transaction's piece is durable.
unfoldable pub is_durable : ℕ → TierPiece → JournalEvent → Bool
is_durable transaction piece (begun id r) = false
is_durable transaction piece (durable id p h) = id == transaction && piece_eq p piece
is_durable transaction piece (published id) = false

unfoldable pub record_begun : ℕ → JournalEvent → Option TierRecord
record_begun transaction (begun id r) = if id == transaction then some r else none
record_begun transaction (durable id piece h) = none
record_begun transaction (published id) = none

abbrev pub or_else : Option TierRecord → Option TierRecord → Option TierRecord
or_else none other = other
or_else (some r) other = some r

unfoldable pub first_begun : ℕ → List JournalEvent → Option TierRecord
first_begun transaction [] = none
first_begun transaction (e ∷ es) = or_else (record_begun transaction e) (first_begun transaction es)

-- `open_record`.
unfoldable pub open_record : TierJournal → ℕ → Result TierError TierRecord
open_record j transaction =
    if any (is_publish transaction) j.events
    then err already_published
    else or_fail (first_begun transaction j.events) journal_error

abbrev pub push_event : JournalEvent → TierJournal → TierJournal
push_event e j = record j { events = j.events ++ (e ∷ []) }

-- `begin`, with the transaction; nothing changes where it fails.
unfoldable pub begin_record : TierJournal → TierRecord → Result TierError (TierJournal × ℕ)
begin_record j r = do
  valid ← validate_record r
  next ← or_fail (checked_add u64_max j.next_transaction 1) overflow
  ok (
    push_event (begun j.next_transaction r) (record j { next_transaction = next }),
    j.next_transaction,
  )

-- `piece_durable`.
unfoldable pub piece_durable : TierJournal → ℕ → TierPiece → Digest → Result TierError TierJournal
piece_durable j transaction piece observed = do
  r ← open_record j transaction
  expected ← or_fail (find_piece r piece) pieces_error
  if not (observed == expected.sha256)
      then err checksum
      else if any (is_durable transaction piece) j.events
      then err journal_error
      else ok (push_event (durable transaction piece observed) j)

-- `publish`.
unfoldable pub publish : TierJournal → ℕ → Result TierError TierJournal
publish j transaction = do
  r ← open_record j transaction
  if any (λ p. not (any (is_durable transaction p.piece) j.events)) r.pieces
      then err not_durable
      else ok (push_event (published transaction) j)

-- A transaction in the recovery: its record, its durable pieces, and whether it was published.
pub record RecoveryState : Type 0 where
  pub record_of : TierRecord
  pub pieces : List TierPiece
  pub is_published : Bool

unfoldable pub replay_begun :
    Map RecoveryState → ℕ → TierRecord → Result TierError (Map RecoveryState)
replay_begun transactions id r = do
  valid ← validate_record r
  if is_some (find id transactions)
      then err journal_error
      else ok (insert id (record { record_of = r; pieces = []; is_published = false }) transactions)

unfoldable pub replay_durable :
    Map RecoveryState
    → ℕ
    → TierPiece
    → Digest
    → RecoveryState
    → Result TierError (Map RecoveryState)
replay_durable transactions id piece h state =
    if state.is_published
    then err journal_error
    else (or_fail (find_piece state.record_of piece) pieces_error >>= λ expected.
        if not (expected.sha256 == h) || has_piece state.pieces piece
        then err checksum
        else ok (adjust id (λ t. record t { pieces = piece ∷ t.pieces }) transactions))

unfoldable pub replay_published :
    Map RecoveryState → ℕ → RecoveryState → Result TierError (Map RecoveryState)
replay_published transactions id state =
    if state.is_published || any (λ p. not (has_piece state.pieces p.piece)) state.record_of.pieces
    then err not_durable
    else ok (adjust id (λ t. record t { is_published = true }) transactions)

unfoldable pub replay_event :
    Map RecoveryState → JournalEvent → Result TierError (Map RecoveryState)
replay_event transactions (begun id r) = replay_begun transactions id r
replay_event transactions (durable id piece h) =
    or_fail (find id transactions) journal_error >>= replay_durable transactions id piece h
replay_event transactions (published id) =
    or_fail (find id transactions) journal_error >>= replay_published transactions id

-- The first loop of `recover`.
unfoldable pub replay : Map RecoveryState → List JournalEvent → Result TierError (Map RecoveryState)
replay transactions [] = ok transactions
replay transactions (e ∷ es) = do next ← replay_event transactions e; replay next es

-- A recovered record and one that was published after it, for their relation.
unfoldable pub supersede :
    Map TierRecord
    → TierRecord
    → TierRecord
    → TierRecordRelation
    → Result TierError (Map TierRecord)
supersede recovered existing r exact_dedup = ok recovered
supersede recovered existing r retain_mtp = ok recovered
supersede recovered existing r mtp_upgrade =
    if leb r.generation existing.generation
    then err journal_error
    else ok (insert r.page_key r recovered)

unfoldable pub add_record :
    Map TierRecord → TierRecord → Option TierRecord → Result TierError (Map TierRecord)
add_record recovered r none = ok (insert r.page_key r recovered)
add_record recovered r (some existing) = relation_to existing r >>= supersede recovered existing r

unfoldable pub add_published : Map TierRecord → RecoveryState → Result TierError (Map TierRecord)
add_published recovered state =
    if not state.is_published
    then ok recovered
    else add_record recovered state.record_of (find state.record_of.page_key recovered)

-- The second loop of `recover`, over the transactions in order.
unfoldable pub add_all : Map TierRecord → Map RecoveryState → Result TierError (Map TierRecord)
add_all recovered [] = ok recovered
add_all recovered ((id, state) ∷ states) = do
  next ← add_published recovered state
  add_all next states

-- `recover`.
unfoldable pub recover : TierJournal → Result TierError (Map TierRecord)
recover j = do transactions ← replay [] j.events; add_all [] transactions

abbrev pub transaction_of : JournalEvent → ℕ
transaction_of (begun id r) = id
transaction_of (durable id piece h) = id
transaction_of (published id) = id

unfoldable pub last_transaction : List JournalEvent → ℕ
last_transaction [] = 0
last_transaction (e ∷ es) = max (transaction_of e) (last_transaction es)

-- `from_events`.
unfoldable pub from_events : List JournalEvent → Result TierError TierJournal
from_events events = do
  next ← or_fail (checked_add u64_max (last_transaction events) 1) overflow
  recovered ← recover (record { events = events; next_transaction = next })
  ok (record { events = events; next_transaction = next })
