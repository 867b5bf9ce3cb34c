-- ===== src/Cache/Tier/Tracks.antt =====
-- What the events of a journal say of a transaction, against the state that the recovery holds of it:
-- crates/glm-cache/src/tier.rs.
use glmaxx.Base.{
  ℕ, ◌≡◌, refl, ap, sym, ◌∙◌, subst, inl, inr, Bool, true, false, ◌||◌, List, [], ◌∷◌, ◌++◌, any,
  Option, none, some, ◌==◌, ==→eq, ==-refl, if◌then◌else◌, Result, ok, err, ◌>>=◌, >>=-eq_ok,
  Bool-cases, arith,
}
use mathlib.Core.Option
use glmaxx.Base.Maps.{Map, find, insert, adjust, find-insert, find-adjust}
use glmaxx.Cache.Tier.{Digest, TierPiece, has_piece, TierRecord, TierError, validate_record}
use glmaxx.Cache.Tier.Journal.{
  JournalEvent, begun, durable, published, is_publish, is_durable, record_begun, or_else,
  first_begun, RecoveryState, replay_begun, replay_event, replay,
}

any-push :
    {A : Type 0} (p : A → Bool) (es : List A) (e : A) → any p (es ++ (e ∷ [])) ≡ (any p es || p e)
any-push p [] e = ground arith
any-push p (d ∷ es) e = ground (arith, any-push p es e)

or_else-none : (a : Option TierRecord) → or_else a none ≡ or_else none a
or_else-none none = refl
or_else-none (some r) = refl

or_else_assoc : (a b c : Option TierRecord) → or_else a (or_else b c) ≡ or_else (or_else a b) c
or_else_assoc none b c = refl
or_else_assoc (some r) b c = refl

first_begun-push :
    (id : ℕ) (es : List JournalEvent) (e : JournalEvent)
    → first_begun id (es ++ (e ∷ [])) ≡ or_else (first_begun id es) (record_begun id e)
unfolding first_begun
first_begun-push id [] e = or_else-none (record_begun id e)
first_begun-push id (d ∷ es) e =
    ap (or_else (record_begun id d)) (first_begun-push id es e)
    ∙ or_else_assoc (record_begun id d) _ _

ok-inj : {A : Type 0} {a b : A} → ◌≡◌ {A = Result TierError A} (ok a) (ok b) → a ≡ b
ok-inj h = cc

>>=-eq_same : {A : Type 0} (m : Result TierError A) → (m >>= ok) ≡ m
>>=-eq_same (ok a) = refl
>>=-eq_same (err e) = refl

pub replay-push :
    (m : Map RecoveryState) (es : List JournalEvent) (e : JournalEvent) {states : Map RecoveryState}
    → replay m es ≡ ok states
    → replay m (es ++ (e ∷ [])) ≡ replay_event states e
unfolding replay
replay-push m [] e {states} h =
    let same : m ≡ states = ok-inj h in
    >>=-eq_same (replay_event m e) ∙ ap (λ (x : Map RecoveryState). replay_event x e) same
replay-push m (d ∷ es) e h =
    let (next, first, rest) = >>=-eq_ok (replay_event m d) _ h in
    rw first (replay-push next es e rest)

-- What the events say of a transaction is what the recovery holds of it.
abbrev pub Tracks : Option RecoveryState → ℕ → List JournalEvent → Type 0
Tracks none id events =
    (first_begun id events ≡ none)
    × (any (is_publish id) events ≡ false)
    × ((piece : TierPiece) → any (is_durable id piece) events ≡ false)
Tracks (some state) id events =
    (first_begun id events ≡ some state.record_of)
    × (any (is_publish id) events ≡ state.is_published)
    × ((piece : TierPiece) → any (is_durable id piece) events ≡ has_piece state.pieces piece)

-- An event of another transaction changes nothing of what is tracked.
pub Tracks-other :
    (there : Option RecoveryState) (id : ℕ) (events : List JournalEvent) (e : JournalEvent)
    → record_begun id e ≡ none
    → is_publish id e ≡ false
    → ((piece : TierPiece) → is_durable id piece e ≡ false)
    → Tracks there id events
    → Tracks there id (events ++ (e ∷ []))
Tracks-other none id events e a b c (x, y, z) = (
  first_begun-push id events e ∙ rw (x, a),
  any-push (is_publish id) events e ∙ ground (arith, y, b),
  λ piece. any-push (is_durable id piece) events e ∙ ground (arith, z piece, c piece),
)
Tracks-other (some state) id events e a b c (x, y, z) = (
  first_begun-push id events e ∙ rw x,
  any-push (is_publish id) events e ∙ ground (arith, y, b),
  λ piece. any-push (is_durable id piece) events e ∙ ground (arith, z piece, c piece),
)

pub Tracks-begun :
    (id : ℕ) (events : List JournalEvent) (r : TierRecord)
    → Tracks none id events
    → Tracks
        (some (record { record_of = r; pieces = []; is_published = false }))
        id
        (events ++ (begun id r ∷ []))
unfolding record_begun is_publish is_durable has_piece
Tracks-begun id events r (x, y, z) = (
  first_begun-push id events (begun id r) ∙ rw (x, ==-refl id),
  any-push (is_publish id) events (begun id r) ∙ ground (arith, y),
  λ piece. any-push (is_durable id piece) events (begun id r) ∙ ground (arith, z piece),
)

pub Tracks-durable :
    (id : ℕ) (events : List JournalEvent) (state : RecoveryState) (piece : TierPiece)
    (digest : Digest)
    → Tracks (some state) id events
    → Tracks
        (some (record state { pieces = piece ∷ state.pieces }))
        id
        (events ++ (durable id piece digest ∷ []))
unfolding record_begun is_publish is_durable has_piece
Tracks-durable id events state piece digest (x, y, z) = (
  first_begun-push id events (durable id piece digest) ∙ rw x,
  any-push (is_publish id) events (durable id piece digest) ∙ ground (arith, y),
  λ p.
      any-push (is_durable id p) events (durable id piece digest) ∙ ground (arith, z p, ==-refl id),
)

pub Tracks-published :
    (id : ℕ) (events : List JournalEvent) (state : RecoveryState)
    → Tracks (some state) id events
    → Tracks (some (record state { is_published = true })) id (events ++ (published id ∷ []))
unfolding record_begun is_publish is_durable
Tracks-published id events state (x, y, z) = (
  first_begun-push id events (published id) ∙ rw x,
  any-push (is_publish id) events (published id) ∙ ground (arith, ==-refl id),
  λ p. any-push (is_durable id p) events (published id) ∙ ground (arith, z p),
)

pub replayed_begun :
    (m : Map RecoveryState) (id : ℕ) (r : TierRecord)
    → validate_record r ≡ ok tt
    → find id m ≡ none
    → replay_event m (begun id r)
      ≡ ok (insert id (record { record_of = r; pieces = []; is_published = false }) m)
unfolding replay_event replay_begun
replayed_begun m id r valid new = rw (valid, new)

pub flip : (a b : ℕ) → (a == b) ≡ false → (b == a) ≡ false
flip a b h = ground arith

pub later :
    (i id : ℕ) (there : Option RecoveryState) (state : RecoveryState)
    → (i == id) ≡ false
    → there ≡ none
    → (if i == id then some state else there) ≡ none
later i id there state h e = rw (h, e)

pub Tracks-insert :
    (m : Map RecoveryState) (id i : ℕ) (r : TierRecord) (events : List JournalEvent)
    → find id m ≡ none
    → ((k : ℕ) → Tracks (find k m) k events)
    → Tracks
        (find i (insert id (record { record_of = r; pieces = []; is_published = false }) m))
        i
        (events ++ (begun id r ∷ []))
Tracks-insert m id i r events new all_tracked = elim (Bool-cases (i == id)) [
  | inl same ↦
      let state : RecoveryState = record { record_of = r; pieces = []; is_published = false } in
      rw (find-insert i id state m, same)
        (subst (λ k. Tracks (some state) k (events ++ (begun id r ∷ []))) (sym (==→eq i id same))
          (Tracks-begun id events r (subst (λ o. Tracks o id events) new (all_tracked id))))
  | inr other ↦
      rw (find-insert i id _ m, other)
        (Tracks-other (find i m) i events (begun id r) (unfold record_begun in rw (flip i id other))
          (unfold is_publish in refl) (λ p. unfold is_durable in refl) (all_tracked i))
]

-- The change of one transaction by an event that is its own.
pub Tracks-adjust :
    (m : Map RecoveryState) (id i : ℕ) (f : RecoveryState → RecoveryState) (state : RecoveryState)
    (events : List JournalEvent) (e : JournalEvent)
    → find id m ≡ some state
    → Tracks (some (f state)) id (events ++ (e ∷ []))
    → ((i == id) ≡ false → Tracks (find i m) i (events ++ (e ∷ [])))
    → Tracks (find i (adjust id f m)) i (events ++ (e ∷ []))
Tracks-adjust m id i f state events e found own other = elim (Bool-cases (i == id)) [
  | inl same ↦
      rw (find-adjust i id f m, same)
        (subst (λ k. Tracks (Option.map f (find k m)) k (events ++ (e ∷ [])))
          (sym (==→eq i id same)) (rw found own))
  | inr apart ↦ rw (find-adjust i id f m, apart) (other apart)
]
