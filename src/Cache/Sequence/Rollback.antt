-- ===== src/Cache/Sequence/Rollback.antt =====
-- The pages and the tokens of a sequence through a tentative tail and its rollback:
-- crates/glm-cache/src/sequence.rs, `begin_tentative` and `rollback_tentative`.
use glmaxx.Base.{
  ℕ, ◌+◌, ◌≡◌, refl, ap, sym, ◌∙◌, subst, ◌||◌, length, take, none, some, ltb, ◌==◌, if◌then◌else◌,
  is_some, ok, err, or_fail, ◌>>=◌, checked_sub, arith,
}
use glmaxx.Base.Ensures.{Ensures, bind-Ensures, or_fail-Ensures, guard-Ensures, Ensures-eq_ok}
use glmaxx.Base.Maps.{find}
use glmaxx.Cache.Sequence.{
  TentativeTail, Sequence, SequencePageTable, sequence_error, transaction_error, invariant_error,
  maximum_context_tokens,
}
use glmaxx.Cache.Sequence.Append.{set_sequence}
use glmaxx.Cache.Sequence.Tentative.{
  with_tentative, begin_inner, rollback_tail, rollback_inner, begin_tentative, rollback_tentative,
}
use glmaxx.Cache.Sequence.Account.Allocate.{missing}
use glmaxx.Cache.Sequence.Outcomes.{transact-eq_ok, when_unbound-eq_ok, some-inj}
use glmaxx.Cache.Sequence.Extends.{
  Extends, Grown, take_all, find-set_sequence, reserve_tentative-Extends, pop_pages-Extends,
  restore_tail-Extends, restored-Extends,
}

-- A tail was begun on a sequence that had none.
abbrev Begun : ℕ → Sequence → SequencePageTable → Type 0
Begun id q t =
    (q.tentative ≡ none)
    × (tail : TentativeTail) × (reserved : SequencePageTable) × (t
        ≡ set_sequence id (with_tentative (some tail)) reserved)
    × Extends id q (Grown id q) reserved
    × (tail.original_page_count ≡ length q.pages)
    × (tail.original_committed_tokens ≡ q.committed_tokens)

begin_inner-Begun :
    (s : SequencePageTable) (id requested : ℕ) (q : Sequence)
    → find id s.sequences ≡ some q
    → Ensures (Begun id q) (begin_inner s id requested q)
unfolding begin_inner
begin_inner-Begun s id requested q found =
    guard-Ensures
      (is_some q.tentative || ltb maximum_context_tokens (q.committed_tokens + requested))
      transaction_error
      (λ guards.
        bind-Ensures
          (reserve_tentative-Extends id q s requested (record {
            now = q;
            there = found;
            same_mtp = refl;
            same_tokens = refl;
            same_tentative = refl;
            first = take_all q.pages;
            long = omega arith;
          }))
          (λ reserved extended.
            Ensures.returned
              (missing q.tentative (ground arith), _, reserved, refl, extended, refl, refl)))

begin_call-Begun :
    (s : SequencePageTable) (id requested : ℕ) (q : Sequence)
    → find id s.sequences ≡ some q
    → Ensures (Begun id q) (
        if requested == 0 || ltb 7 requested
        then err transaction_error
        else (or_fail (find id s.sequences) sequence_error >>= begin_inner s id requested))
begin_call-Begun s id requested q found =
    guard-Ensures (requested == 0 || ltb 7 requested) transaction_error (λ h.
      bind-Ensures (or_fail-Ensures (find id s.sequences) sequence_error) (λ r there.
        let same : r ≡ q = some-inj (sym there ∙ found) in
        subst (λ v. Ensures (Begun id q) (begin_inner s id requested v)) (sym same)
          (begin_inner-Begun s id requested q found)))

-- The rollback of a tail that the sequence holds, by what its begin recorded.
rollback_tail-find :
    (t : SequencePageTable) (id : ℕ) (q now r : Sequence) (tail : TentativeTail)
    → find id t.sequences ≡ some r
    → r ≡ with_tentative (some tail) now
    → (now.mtp ≡ q.mtp)
      × (now.committed_tokens ≡ q.committed_tokens)
      × (take (length q.pages) now.pages ≡ q.pages)
      × (none ≡ q.tentative)
    → tail.original_page_count ≡ length q.pages
    → tail.original_committed_tokens ≡ q.committed_tokens
    → Ensures (λ u. find id u.sequences ≡ some q) (rollback_tail t id r tail)
unfolding rollback_tail
rollback_tail-find t id q now r tail found is (mtp, committed, first, idle) count tokens =
    bind-Ensures
      (or_fail-Ensures (checked_sub (length r.pages) tail.original_page_count) invariant_error)
      (λ extra less.
        bind-Ensures
          (pop_pages-Extends id q (set_sequence id (with_tentative none) t) extra (record {
            now = with_tentative none r;
            there = find-set_sequence t id (with_tentative none) found;
            same_mtp = ap (λ (u : Sequence). u.mtp) is ∙ mtp;
            same_tokens = ap (λ (u : Sequence). u.committed_tokens) is ∙ committed;
            same_tentative = idle;
            first = ap (λ (u : Sequence). take (length q.pages) u.pages) is ∙ first;
            long = ground (arith, less, count);
          }))
          (λ popped x.
            bind-Ensures (restore_tail-Extends id q popped tail x)
              (λ restored y. Ensures.returned (rw tokens (restored-Extends id q restored y)))))

rollback_inner-find :
    (t : SequencePageTable) (id : ℕ) (q : Sequence)
    → Begun id q t
    → Ensures (λ u. find id u.sequences ≡ some q) (rollback_inner t id)
unfolding rollback_inner
rollback_inner-find t id q (idle, tail, reserved, made, x, count, tokens) =
    let at_t : find id t.sequences ≡ some (with_tentative (some tail) x.now) =
      ap (λ (u : SequencePageTable). find id u.sequences) made
      ∙ find-set_sequence reserved id (with_tentative (some tail)) x.there in
    bind-Ensures (or_fail-Ensures (find id t.sequences) transaction_error) (λ r found.
      let is : r ≡ with_tentative (some tail) x.now = some-inj (sym found ∙ at_t) in
      bind-Ensures (or_fail-Ensures r.tentative transaction_error) (λ tail' has.
        let same : tail' ≡ tail = some-inj (sym has ∙ ap (λ (u : Sequence). u.tentative) is) in
        rollback_tail-find t id q x.now r tail' found (rw same is)
          (x.same_mtp, x.same_tokens, x.first, sym idle) (rw same count) (rw same tokens)))

-- Where a tentative tail is begun on a sequence and then rolled back, both with success, the sequence is
-- again what it was: its committed tokens, its pages in order, and no tentative tail.
pub rollback_tentative-begin_tentative :
    (s t u : SequencePageTable) (id requested : ℕ) (q : Sequence)
    → find id s.sequences ≡ some q
    → begin_tentative s id requested ≡ (t, ok tt)
    → rollback_tentative t id ≡ (u, ok tt)
    → find id u.sequences ≡ some q
unfolding begin_tentative rollback_tentative
rollback_tentative-begin_tentative s t u id requested q found begin_ok rollback_ok =
    let inner = when_unbound-eq_ok s _ t (transact-eq_ok s _ t begin_ok) in
    let back = when_unbound-eq_ok t _ u (transact-eq_ok t _ u rollback_ok) in
    Ensures-eq_ok
      (rollback_inner-find t id q (Ensures-eq_ok (begin_call-Begun s id requested q found) inner))
      back
