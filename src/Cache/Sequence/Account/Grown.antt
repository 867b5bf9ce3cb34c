-- ===== src/Cache/Sequence/Account/Grown.antt =====
-- The balance when a sequence grows by committed or tentative tokens: crates/glm-cache/src/sequence.rs,
-- `append_committed`, `reserve_tentative` and `begin_tentative`.
use glmaxx.Base.{
  ℕ, zero, suc, ◌+◌, ◌-◌, ◌≡◌, refl, ap, ◌∙◌, min, Bool, true, false, ◌&&◌, ◌||◌, not, length,
  Option, none, some, ltb, ◌==◌, if◌then◌else◌, is_some, ok, err, or_fail, checked_add, u8_max,
  arith,
}
use glmaxx.Base.Ensures.{
  Ensures, bind-Ensures, or_fail-Ensures, if-Ensures, guard-Ensures, Ensures-mono, any-Ensures,
}
use glmaxx.Base.Maps.{find}
use glmaxx.Cache.Budget.{page_tokens}
use glmaxx.Cache.Page.{hbm_sealed, hbm_mutable, hbm_tentative}
use glmaxx.Cache.Sequence.{
  PhysicalPageId, PhysicalPage, SequencePage, Sequence, SequencePageTable, sequence_error,
  transaction_error, invariant_error, state_error, overflow, maximum_context_tokens,
}
use glmaxx.Cache.Sequence.Store.{lookup_page, put_page}
use glmaxx.Cache.Sequence.Attach.{state_eq, is_full}
use glmaxx.Cache.Sequence.Append.{
  get_last?, set_sequence, push_page, with_tokens, grown_tokens, seal_if_full, fill_page, fill_tail,
  grow_page, append_pages, append_to, append_inner,
}
use glmaxx.Cache.Sequence.Tentative.{
  needs_page, ensure_page, make_tentative, reserve_in, reserve_token, reserve_tentative,
  begin_inner,
}
use glmaxx.Cache.Sequence.Account.Step.{
  mark, Step, Step-trans, Step-refl, after_quiet, before_quiet, nothing,
}
use glmaxx.Cache.Sequence.Account.Pages.{keep-Step}
use glmaxx.Cache.Sequence.Account.Allocate.{move_page-references, allocate_page-Step}
use glmaxx.Cache.Sequence.Account.Listed.{listed-push, set_sequence-Step, same_pages-Step}

-- A whole operation keeps the balance.
abbrev pub Keeps : SequencePageTable → SequencePageTable → Type 0
Keeps s t = Step nothing nothing s t

-- A page that a step returned keeps its references.
abbrev pub SameReferences : PhysicalPage → PhysicalPage → Type 0
SameReferences page page' = page'.references ≡ page.references

seal_if_full-references : (page : PhysicalPage) → Ensures (SameReferences page) (seal_if_full page)
unfolding seal_if_full
seal_if_full-references page =
    if-Ensures (page.valid_tokens == page_tokens) (λ h. move_page-references page hbm_sealed)
      (λ h. Ensures.returned refl)

fill_page-Keeps :
    (s : SequencePageTable) (p : PhysicalPageId) (page : PhysicalPage) (remaining : ℕ)
    → lookup_page s p ≡ some page
    → Ensures (λ r. Keeps s r.0) (fill_page s p page remaining)
unfolding fill_page
fill_page-Keeps s p page remaining found =
    if-Ensures
      (state_eq page.state hbm_mutable && page.references == 1 && ltb page.valid_tokens page_tokens)
      (λ h.
        bind-Ensures
          (seal_if_full-references (record page {
            valid_tokens = page.valid_tokens + min remaining (page_tokens - page.valid_tokens);
          }))
          (λ sealed same. Ensures.returned (keep-Step s p page sealed found same)))
      (λ h. guard-Ensures (not (is_full page)) state_error (λ k. Ensures.returned (Step-refl s)))

fill_tail-Keeps :
    (s : SequencePageTable) (last : Option SequencePage) (remaining : ℕ)
    → Ensures (λ r. Keeps s r.0) (fill_tail s last remaining)
unfolding fill_tail
fill_tail-Keeps s none remaining = Ensures.returned (Step-refl s)
fill_tail-Keeps s (some e) remaining =
    bind-Ensures (or_fail-Ensures (lookup_page s e.physical) invariant_error)
      (λ page found. fill_page-Keeps s e.physical page remaining found)

-- The page that was allocated for a sequence is put at the end of its list.
push-Keeps :
    {s t : SequencePageTable} (id ordinal : ℕ) (q : Sequence) (p : PhysicalPageId)
    → Step (mark p) nothing s t
    → find id t.sequences ≡ some q
    → Keeps s (set_sequence id (push_page (record { ordinal = ordinal; physical = p })) t)
push-Keeps {s} {t} id ordinal q p step found =
    let e : SequencePage = record { ordinal = ordinal; physical = p } in
    Step-trans step (set_sequence-Step t id (push_page e) q found)
      (λ r. let pushed = listed-push r q.pages e in omega arith)

grow_page-Keeps :
    (s : SequencePageTable) (id : ℕ) (q : Sequence) (remaining : ℕ)
    → find id s.sequences ≡ some q
    → Ensures (Keeps s) (grow_page s id q remaining)
unfolding grow_page
grow_page-Keeps s id q remaining found =
    bind-Ensures (allocate_page-Step s (length q.pages) q.mtp)
      (λ (t, p) (step, sequences, new, there, once).
        bind-Ensures (or_fail-Ensures (lookup_page t p) invariant_error) (λ page at_p.
          bind-Ensures
            (seal_if_full-references (record page { valid_tokens = min remaining page_tokens }))
            (λ sealed same. Ensures.returned (
              push-Keeps id (length q.pages) q p
                (before_quiet step (keep-Step t p page sealed at_p same))
                (unfold put_page in ap (find id) sequences ∙ found)))))

append_pages-Keeps :
    (fuel : ℕ) (s : SequencePageTable) (id remaining : ℕ)
    → Ensures (Keeps s) (append_pages fuel s id remaining)
unfolding append_pages
append_pages-Keeps fuel s id zero = Ensures.returned (Step-refl s)
append_pages-Keeps zero s id (suc n) = Ensures.failed
append_pages-Keeps (suc fuel) s id (suc n) =
    bind-Ensures (or_fail-Ensures (find id s.sequences) sequence_error) (λ q found.
      bind-Ensures (grow_page-Keeps s id q (suc n) found) (λ grown step.
        Ensures-mono (append_pages-Keeps fuel grown id (suc n - min (suc n) page_tokens))
          (λ t steps. after_quiet step steps)))

pub append_inner-Keeps :
    (s : SequencePageTable) (id token_count : ℕ) → Ensures (Keeps s) (append_inner s id token_count)
unfolding append_inner append_to
append_inner-Keeps s id token_count =
    bind-Ensures (any-Ensures (or_fail (find id s.sequences) sequence_error)) (λ q e.
      bind-Ensures (any-Ensures (grown_tokens q.committed_tokens token_count)) (λ tokens h.
        bind-Ensures
          (any-Ensures (if is_some q.tentative then err transaction_error else ok (tt {0})))
          (λ idle k.
            bind-Ensures (fill_tail-Keeps s (get_last? q.pages) token_count)
              (λ (filled, remaining) step.
                bind-Ensures (append_pages-Keeps remaining filled id remaining) (λ appended steps.
                  Ensures.returned (
                    before_quiet (after_quiet step steps)
                      (same_pages-Step appended id (with_tokens tokens) (λ r. refl))))))))

ensure_page-Keeps :
    (s : SequencePageTable) (id : ℕ) (q : Sequence) (needed : Bool)
    → find id s.sequences ≡ some q
    → Ensures (Keeps s) (ensure_page s id q needed)
unfolding ensure_page
ensure_page-Keeps s id q false found = Ensures.returned (Step-refl s)
ensure_page-Keeps s id q true found =
    bind-Ensures (allocate_page-Step s (length q.pages) q.mtp)
      (λ (t, p) (step, sequences, new, there, once).
        Ensures.returned (push-Keeps id (length q.pages) q p step (ap (find id) sequences ∙ found)))

make_tentative-references :
    (page : PhysicalPage) → Ensures (SameReferences page) (make_tentative page)
unfolding make_tentative
make_tentative-references page =
    guard-Ensures
      (not (page.references == 1)
        || not (state_eq page.state hbm_mutable || state_eq page.state hbm_tentative))
      state_error
      (λ h.
        if-Ensures (state_eq page.state hbm_mutable) (λ k. move_page-references page hbm_tentative)
          (λ k. Ensures.returned refl))

reserve_in-Keeps : (s : SequencePageTable) (e : SequencePage) → Ensures (Keeps s) (reserve_in s e)
unfolding reserve_in
reserve_in-Keeps s e =
    bind-Ensures (or_fail-Ensures (lookup_page s e.physical) invariant_error) (λ page found.
      bind-Ensures (make_tentative-references page) (λ moved same.
        bind-Ensures (any-Ensures (or_fail (checked_add u8_max moved.valid_tokens 1) overflow))
          (λ tokens h.
            Ensures.returned
              (keep-Step s e.physical page (record moved { valid_tokens = tokens }) found same))))

reserve_token-Keeps : (s : SequencePageTable) (id : ℕ) → Ensures (Keeps s) (reserve_token s id)
unfolding reserve_token
reserve_token-Keeps s id =
    bind-Ensures (or_fail-Ensures (find id s.sequences) sequence_error) (λ q found.
      bind-Ensures (any-Ensures (needs_page s (get_last? q.pages))) (λ needed h.
        bind-Ensures (ensure_page-Keeps s id q needed found) (λ ensured step.
          bind-Ensures (any-Ensures (or_fail (find id ensured.sequences) sequence_error)) (λ r k.
            bind-Ensures (any-Ensures (or_fail (get_last? r.pages) invariant_error)) (λ e l.
              Ensures-mono (reserve_in-Keeps ensured e) (λ t last. after_quiet step last))))))

reserve_tentative-Keeps :
    (s : SequencePageTable) (id count : ℕ) → Ensures (Keeps s) (reserve_tentative s id count)
unfolding reserve_tentative
reserve_tentative-Keeps s id zero = Ensures.returned (Step-refl s)
reserve_tentative-Keeps s id (suc n) = bind-Ensures (reserve_token-Keeps s id) (λ reserved step.
    Ensures-mono (reserve_tentative-Keeps reserved id n) (λ t steps. after_quiet step steps))

pub begin_inner-Keeps :
    (s : SequencePageTable) (id requested : ℕ) (q : Sequence)
    → Ensures (Keeps s) (begin_inner s id requested q)
unfolding begin_inner
begin_inner-Keeps s id requested q =
    guard-Ensures
      (is_some q.tentative || ltb maximum_context_tokens (q.committed_tokens + requested))
      transaction_error
      (λ h. bind-Ensures (reserve_tentative-Keeps s id requested) (λ reserved step.
        Ensures.returned (before_quiet step (same_pages-Step reserved id _ (λ r. refl)))))
