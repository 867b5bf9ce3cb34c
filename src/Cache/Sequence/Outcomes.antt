-- ===== src/Cache/Sequence/Outcomes.antt =====
-- What the success of a public method says of the step inside it: crates/glm-cache/src/sequence.rs.
use glmaxx.Base.{◌≡◌, ap, inl, inr, some, is_some, Result, ok, err, Bool-cases}
use glmaxx.Cache.Sequence.{SequencePageTable, SequencePageError, transaction_error, Outcome}
use glmaxx.Cache.Sequence.Quarantine.{transact, when_unbound}

pub some-inj : {A : Type 0} {a b : A} → some a ≡ some b → a ≡ b
some-inj h = cc

pub transact-eq_ok :
    (s : SequencePageTable) (r : Outcome SequencePageTable) (t : SequencePageTable)
    → transact s r ≡ (t, ok tt)
    → r ≡ ok t
unfolding transact
transact-eq_ok s (ok u) t h =
    ap (λ (x : SequencePageTable × Result SequencePageError (Unit {0})). ok x.0) h
transact-eq_ok s (err e) t h =
    let impossible : err e ≡ ok (tt {0}) =
      ap (λ (x : SequencePageTable × Result SequencePageError (Unit {0})). x.1) h in
    cc

pub when_unbound-eq_ok :
    (s : SequencePageTable) (r : Outcome SequencePageTable) (t : SequencePageTable)
    → when_unbound s r ≡ ok t
    → r ≡ ok t
unfolding when_unbound
when_unbound-eq_ok s r t h = elim (Bool-cases (is_some s.quarantine_generation)) [
  | inl bound ↦ let impossible : err transaction_error ≡ ok t = rw bound at h in cc
  | inr unbound ↦ rw unbound at h
]
