-- ===== src/Cache/Mtp.antt =====
-- The speculative tail of a sequence: crates/glm-cache/src/mtp.rs.
use glmaxx.Base.{
  ℕ, ◌+◌, ◌-◌, ◌≤◌, ◌<◌, ◌≡◌, ◌||◌, not, Result, ok, err, or_fail, ◌>>=◌, checked_add, ltb, leb,
  ◌==◌, if◌then◌else◌, min, arith, u8_max, u64_max, sym, subst, ap, ◌∙◌, ◌↔◌,
}

pub record VerifyOutcome : Type 0 where
  pub accepted_drafts : ℕ
  pub emitted_tokens : ℕ
  pub committed_position : ℕ

pub record SpeculativeTail : Type 0 where
  pub committed_position : ℕ
  pub depth : ℕ
  pub target_tentative : ℕ
  pub draft_tentative : ℕ
  pub draft_indexer_tentative : ℕ
  pub max_positions : ℕ

pub data MtpError : Type 0 where
  bounds accepted : MtpError

-- `u8` addition that saturates.
abbrev pub saturating_add : ℕ → ℕ → ℕ
saturating_add a b = min (a + b) u8_max

-- The depth that leaves room for the token after the drafts.
unfoldable pub clamped : ℕ → ℕ → ℕ
clamped depth available = min depth (min (available - 1) u8_max)

abbrev pub tail_at : ℕ → ℕ → ℕ → SpeculativeTail
tail_at position kept limit = record {
  committed_position = position;
  depth = kept;
  target_tentative = saturating_add kept 1;
  draft_tentative = kept;
  draft_indexer_tentative = kept;
  max_positions = limit;
}

unfoldable pub begin : ℕ → ℕ → ℕ → Result MtpError SpeculativeTail
begin position depth max_positions =
    if ltb 6 depth || leb max_positions position
    then err bounds
    else ok (tail_at position (clamped depth (max_positions - position)) max_positions)

unfoldable pub emitted_for : SpeculativeTail → ℕ → ℕ
emitted_for tail accepted_drafts =
    if tail.depth == 0 || ltb accepted_drafts tail.depth
    then saturating_add accepted_drafts 1
    else saturating_add tail.depth 1

-- The end of `verify_greedy`, at the new position.
unfoldable pub settle : SpeculativeTail → ℕ → ℕ → Result MtpError VerifyOutcome
unfolding emitted_for
settle tail accepted_drafts position =
    if ltb tail.max_positions position
      || not (tail.target_tentative == tail.depth + 1)
      || not (tail.draft_tentative == tail.depth)
      || not (tail.draft_indexer_tentative == tail.depth)
    then err bounds
    else ok (record {
      accepted_drafts = accepted_drafts;
      emitted_tokens = emitted_for tail accepted_drafts;
      committed_position = position;
    })

unfoldable pub verify_greedy : SpeculativeTail → ℕ → Result MtpError VerifyOutcome
unfolding emitted_for settle
verify_greedy tail accepted_drafts = if ltb tail.depth accepted_drafts then err accepted else do
  position ←
      or_fail (checked_add u64_max tail.committed_position (emitted_for tail accepted_drafts))
        bounds
  settle tail accepted_drafts position

-- The outcome of a tail that accepts the given drafts at a position.
abbrev pub outcome : ℕ → ℕ → VerifyOutcome
outcome position drafts = record {
  accepted_drafts = drafts;
  emitted_tokens = drafts + 1;
  committed_position = position + drafts + 1;
}

begin-tail :
    (position depth max_positions : ℕ) (tail : SpeculativeTail)
    → begin position depth max_positions ≡ ok tail
    → (tail ≡ tail_at position (clamped depth (max_positions - position)) max_positions)
      × (depth ≤ 6)
      × (position < max_positions)
unfolding begin
begin-tail position depth max_positions tail h = ground arith

begin-ok :
    (position depth max_positions : ℕ)
    → depth ≤ 6
    → position < max_positions
    → begin position depth max_positions
      ≡ ok (tail_at position (clamped depth (max_positions - position)) max_positions)
unfolding begin
begin-ok position depth max_positions h k = ground arith

clamped_bounds :
    (depth available : ℕ)
    → depth ≤ 6
    → (clamped depth available ≤ available - 1) × (clamped depth available ≤ 6)
unfolding clamped
clamped_bounds depth available h = omega arith

verify_tail_at :
    (position kept limit drafts : ℕ)
    → limit ≤ u64_max
    → drafts ≤ kept
    → kept ≤ 6
    → position + kept < limit
    → verify_greedy (tail_at position kept limit) drafts ≡ ok (outcome position drafts)
unfolding verify_greedy settle emitted_for
verify_tail_at position kept limit drafts w h k room = ground arith

-- A tail that began below its maximal position, a 64-bit word, verifies any number of drafts up to its
-- depth: it emits the accepted drafts and one token more, moves the committed position by as many, and
-- stays within the maximal position.
pub verify_greedy-begin :
    (position depth max_positions drafts : ℕ) (tail : SpeculativeTail)
    → max_positions ≤ u64_max
    → begin position depth max_positions ≡ ok tail
    → drafts ≤ tail.depth
    → (verify_greedy tail drafts ≡ ok (outcome position drafts))
      × (position + drafts + 1 ≤ max_positions)
verify_greedy-begin position depth max_positions drafts tail w h k =
    let (shape, shallow, below) = begin-tail position depth max_positions tail h in
    let kept = clamped depth (max_positions - position) in
    let (room, few) = clamped_bounds depth (max_positions - position) shallow in
    let within : drafts ≤ kept = subst (λ (t : SpeculativeTail). drafts ≤ t.depth) shape k in
    (
      subst (λ t. verify_greedy t drafts ≡ ok (outcome position drafts)) (sym shape)
          (verify_tail_at position kept max_positions drafts w within few (omega arith)),
      omega arith,
    )

-- The tail of a depth at a position: room for the drafts and for one target token more.
abbrev pub fresh_tail : ℕ → ℕ → ℕ → SpeculativeTail
fresh_tail position depth limit = record {
  committed_position = position;
  depth = depth;
  target_tentative = depth + 1;
  draft_tentative = depth;
  draft_indexer_tentative = depth;
  max_positions = limit;
}

tail_at-fresh :
    (position depth limit : ℕ)
    → depth ≤ 6
    → tail_at position (clamped depth (limit - position)) limit
      ≡ fresh_tail position (min depth (limit - position - 1)) limit
unfolding clamped
tail_at-fresh position depth limit h = ground arith

-- `begin` gives a tail exactly at a depth of at most six and a position below the maximum, and the tail
-- is then the one at that position with the depth asked for, or the largest that leaves a position for
-- one token more where that is less: it holds as many drafts and draft keys, and one target token more.
pub begin_depth :
    (position depth max_positions : ℕ) (tail : SpeculativeTail)
    → begin position depth max_positions ≡ ok tail
      ↔ (depth ≤ 6)
        × (position < max_positions)
        × (tail ≡ fresh_tail position (min depth (max_positions - position - 1)) max_positions)
begin_depth position depth max_positions tail = (
  λ h.
      let (shape, shallow, below) = begin-tail position depth max_positions tail h in
      (shallow, below, shape ∙ tail_at-fresh position depth max_positions shallow),
  λ (shallow, below, shape).
      begin-ok position depth max_positions shallow below
      ∙ ap ok (tail_at-fresh position depth max_positions shallow ∙ sym shape),
)
