-- ===== src/Cache/Sequence/Appended.antt =====
-- What an append does to its sequence, and that its loop ends: crates/glm-cache/src/sequence.rs,
-- `append_committed`.
use glmaxx.Base.{
  ℕ, zero, suc, ◌+◌, ◌-◌, ◌/◌, ◌≤◌, ◌≡◌, refl, sym, ◌∙◌, subst, min, ◌&&◌, not, length, take,
  Option, none, some, ltb, ◌==◌, if◌then◌else◌, is_some, ok, err, or_fail, arith,
}
use glmaxx.Base.Ensures.{
  Ensures, bind-Ensures, or_fail-Ensures, if-Ensures, guard-Ensures, Ensures-mono, Ensures-eq_ok,
  any-Ensures, >>=-cong,
}
use glmaxx.Base.Maps.{find}
use glmaxx.Cache.Budget.{page_tokens}
use glmaxx.Cache.Sequence.{
  SequencePage, Sequence, SequencePageTable, sequence_error, transaction_error, invariant_error,
  state_error, maximum_context_tokens,
}
use glmaxx.Cache.Page.{hbm_mutable}
use glmaxx.Cache.Sequence.Store.{lookup_page, put_page}
use glmaxx.Cache.Sequence.Attach.{state_eq, is_full}
use glmaxx.Cache.Sequence.Append.{
  get_last?, with_tokens, grown_tokens, seal_if_full, fill_page, fill_tail, grow_page, append_pages,
  append_to, append_inner, append_committed,
}
use glmaxx.Cache.Sequence.Account.Allocate.{missing, allocate_page-Step}
use glmaxx.Cache.Sequence.Outcomes.{transact-eq_ok, when_unbound-eq_ok, some-inj}
use glmaxx.Cache.Sequence.Extends.{
  Extends, More, take_all, find-set_sequence, Extends-sequences, Extends-push, put_page-Extends,
}

-- The append loop over `remaining` tokens ends within as many rounds: with that much fuel or more it
-- gives one result, whatever the fuel.
pub append_pages_enough :
    (fuel more : ℕ) (s : SequencePageTable) (id remaining : ℕ)
    → remaining ≤ fuel
    → append_pages (fuel + more) s id remaining ≡ append_pages fuel s id remaining
unfolding append_pages
append_pages_enough fuel more s id zero h = refl
append_pages_enough zero more s id (suc n) h = absurd (omega (arith, h))
append_pages_enough (suc fuel) more s id (suc n) h =
    let one_more : suc fuel + more ≡ suc (fuel + more) = omega arith in
    let next = λ (t : SequencePageTable).
      append_pages_enough fuel more t id (suc n - min (suc n) page_tokens) (omega (arith, h)) in
    rw one_more (
      >>=-cong (or_fail (find id s.sequences) sequence_error) _ _
        (λ q. >>=-cong (grow_page s id q (suc n)) _ _ next))

module _ (id : ℕ) (q : Sequence) where
  grow_page-Extends :
      (s : SequencePageTable) (k : ℕ) (r : Sequence) (remaining : ℕ)
      → Extends id q (More id q k) s
      → Ensures (Extends id q (More id q (suc k))) (grow_page s id r remaining)
  unfolding grow_page
  grow_page-Extends s k r remaining x =
      bind-Ensures (allocate_page-Step s (length r.pages) r.mtp)
        (λ (t, p) (step, sequences, new, at_p, once).
          bind-Ensures (any-Ensures (or_fail (lookup_page t p) invariant_error)) (λ page h.
            bind-Ensures
              (any-Ensures
                (seal_if_full (record page { valid_tokens = min remaining page_tokens })))
              (λ sealed l.
                let e : SequencePage = record { ordinal = length r.pages; physical = p } in
                let y = Extends-sequences id q s t sequences x in
                let z = put_page-Extends id q t p sealed y in
                Ensures.returned (
                  Extends-push id q (put_page p sealed t) e z (omega (arith, z.long))
                    (omega (arith, z.long))))))

  recount :
      (s : SequencePageTable) (a b : ℕ)
      → a ≡ b
      → Extends id q (More id q a) s
      → Extends id q (More id q b) s
  recount s a b e x = subst (λ k. Extends id q (More id q k) s) e x

  append_pages-Extends :
      (fuel : ℕ) (s : SequencePageTable) (k remaining : ℕ)
      → Extends id q (More id q k) s
      → Ensures
          (Extends id q (More id q (k + (remaining + 63) / page_tokens)))
          (append_pages fuel s id remaining)
  unfolding append_pages
  append_pages-Extends fuel s k zero x =
      Ensures.returned (recount s k (k + (0 + 63) / page_tokens) (omega arith) x)
  append_pages-Extends zero s k (suc n) x = Ensures.failed
  append_pages-Extends (suc fuel) s k (suc n) x =
      bind-Ensures (any-Ensures (or_fail (find id s.sequences) sequence_error)) (λ r h.
        bind-Ensures (grow_page-Extends s k r (suc n) x) (λ grown y.
          Ensures-mono (append_pages-Extends fuel grown (suc k) (suc n - min (suc n) page_tokens) y)
            (λ t z. recount t _ _ (omega arith) z)))

  fill_tail-Extends :
      (s : SequencePageTable) (last : Option SequencePage) (remaining : ℕ)
      → Extends id q (More id q 0) s
      → Ensures
          (λ (t, n). Extends id q (More id q 0) t × (n ≤ remaining))
          (fill_tail s last remaining)
  unfolding fill_tail fill_page
  fill_tail-Extends s none remaining x = Ensures.returned (x, omega arith)
  fill_tail-Extends s (some e) remaining x =
      bind-Ensures (any-Ensures (or_fail (lookup_page s e.physical) invariant_error)) (λ page h.
        if-Ensures
          (state_eq page.state hbm_mutable
            && page.references == 1
            && ltb page.valid_tokens page_tokens)
          (λ k.
            bind-Ensures
              (any-Ensures (
                seal_if_full (record page {
                  valid_tokens =
                      page.valid_tokens + min remaining (page_tokens - page.valid_tokens);
                })))
              (λ sealed l.
                Ensures.returned (put_page-Extends id q s e.physical sealed x, omega arith)))
          (λ k.
            guard-Ensures (not (is_full page)) state_error
              (λ l. Ensures.returned (x, omega arith))))

-- The sequence after an append: so many tokens more, its pages with at most the new ones that they need.
abbrev pub Appended : ℕ → Sequence → ℕ → SequencePageTable → Type 0
Appended id q token_count t =
    (r : Sequence) × (find id t.sequences ≡ some r)
    × (r.mtp ≡ q.mtp)
    × (r.tentative ≡ none)
    × (r.committed_tokens ≡ q.committed_tokens + token_count)
    × (r.committed_tokens ≤ maximum_context_tokens)
    × (take (length q.pages) r.pages ≡ q.pages)
    × (length r.pages ≤ length q.pages + (token_count + 63) / page_tokens)

grown_tokens-sum :
    (a b : ℕ) → Ensures (λ n. (n ≡ a + b) × (n ≤ maximum_context_tokens)) (grown_tokens a b)
unfolding grown_tokens
grown_tokens-sum a b =
    guard-Ensures (ltb maximum_context_tokens (a + b)) transaction_error
      (λ fits. Ensures.returned (refl, ground (arith, fits)))

idle-none :
    {A : Type 0} (o : Option A)
    → Ensures (λ u. o ≡ none) (if is_some o then err transaction_error else ok (tt {0}))
idle-none o =
    guard-Ensures (is_some o) transaction_error (λ idle. Ensures.returned (missing o idle))

append_to-Appended :
    (s : SequencePageTable) (id : ℕ) (q : Sequence) (token_count : ℕ)
    → find id s.sequences ≡ some q
    → Ensures (Appended id q token_count) (append_to s id q token_count)
unfolding append_to
append_to-Appended s id q token_count found =
    bind-Ensures (grown_tokens-sum q.committed_tokens token_count) (λ tokens (sum, fits).
      bind-Ensures (idle-none q.tentative) (λ idle none_tentative.
        bind-Ensures
          (fill_tail-Extends id q s (get_last? q.pages) token_count (record {
            now = q;
            there = found;
            same_mtp = refl;
            same_tokens = refl;
            same_tentative = refl;
            first = take_all q.pages;
            long = omega arith;
          }))
          (λ (filled, remaining) (x, less).
            bind-Ensures (append_pages-Extends id q remaining filled 0 remaining x) (λ t y.
              Ensures.returned (
                with_tokens tokens y.now,
                find-set_sequence t id (with_tokens tokens) y.there,
                y.same_mtp,
                y.same_tentative ∙ none_tentative,
                sum,
                fits,
                y.first,
                omega (arith, y.long, less),
              )))))

-- An append of a positive number of tokens that succeeds leaves its sequence with so many committed
-- tokens more, within the context, with no tentative tail, and with its pages in order and after them
-- at most as many new ones as the tokens fill.
pub append_committed-Appended :
    (s t : SequencePageTable) (id token_count : ℕ) (q : Sequence)
    → find id s.sequences ≡ some q
    → 1 ≤ token_count
    → append_committed s id token_count ≡ (t, ok tt)
    → Appended id q token_count t
unfolding append_committed append_inner
append_committed-Appended s t id token_count q found some_tokens done =
    let inner = when_unbound-eq_ok s _ t (transact-eq_ok s _ t done) in
    Ensures-eq_ok
      (if-Ensures (token_count == 0) (λ h. absurd (ground (arith, h, some_tokens)))
        (λ h. bind-Ensures (or_fail-Ensures (find id s.sequences) sequence_error) (λ r there.
          let same : r ≡ q = some-inj (sym there ∙ found) in
          subst (λ v. Ensures (Appended id q token_count) (append_to s id v token_count)) (sym same)
            (append_to-Appended s id q token_count found))))
      inner
