-- ===== src/Cache/Sequence/Account/Attached.antt =====
-- The balance when a sequence takes the pages of its prefix or of another sequence:
-- crates/glm-cache/src/sequence.rs, `attach_pages` and `fork_pages`.
use glmaxx.Base.{
  ℕ, ◌+◌, ◌≡◌, refl, ◌∙◌, Bool, ◌&&◌, not, List, [], ◌∷◌, any, Option, none, some, ltb, ◌==◌,
  is_some, or_fail, arith,
}
use glmaxx.Base.Ensures.{
  Ensures, bind-Ensures, or_fail-Ensures, if-Ensures, guard-Ensures, Ensures-mono, any-Ensures,
}
use glmaxx.Base.Maps.{find, insert}
use glmaxx.Cache.Budget.{page_tokens}
use glmaxx.Cache.Page.{hbm_sealed, hbm_mutable}
use glmaxx.Cache.Sequence.{
  PhysicalPageId, PhysicalPage, PrefixPageAttachment, has_draft, AttachmentRelation, exact,
  retain_draft, draft_upgrade, SequencePage, SequencePageTable, prefix_error, missing_draft,
  invariant_error, set_rank,
}
use glmaxx.Cache.Sequence.Store.{lookup_page, put_page, first_free}
use glmaxx.Cache.Sequence.Attach.{
  state_eq, is_full, shareable, current_relation, upgraded, ensure_draft, share_checked, share_page,
  restore_page, attach_at, attach_page, attach_pages, copy_tail, fork_found, fork_page, fork_pages,
}
use glmaxx.Cache.Sequence.Account.Step.{
  mark, listed, Step, Step-trans, Step-refl, after_quiet, before_quiet, nothing,
}
use glmaxx.Cache.Sequence.Account.Pages.{keep-Step}
use glmaxx.Cache.Sequence.Account.Allocate.{
  Aside, Aside-Step, Aside-refl, put_drafts-Aside, put_prefixes-Aside, lookup-Aside,
  move_page-references, allocate_page-Step,
}
use glmaxx.Cache.Sequence.Account.Release.{retain_page-Step}

upgraded-references :
    (relation : AttachmentRelation) (page : PhysicalPage) (attachment : PrefixPageAttachment)
    (ordinal : ℕ)
    → (upgraded relation page attachment ordinal).references ≡ page.references
unfolding upgraded
upgraded-references exact page attachment ordinal = refl
upgraded-references retain_draft page attachment ordinal = refl
upgraded-references draft_upgrade page attachment ordinal = refl

ensure_draft-Aside :
    (s : SequencePageTable) (rank : ℕ) (mtp : Bool) (page : PhysicalPage)
    → Ensures
        (λ (t, page'). Aside s t × (page'.references ≡ page.references))
        (ensure_draft s rank mtp page)
unfolding ensure_draft
ensure_draft-Aside s rank mtp page =
    if-Ensures (mtp && not (is_some page.draft_local_page_id))
      (λ h. bind-Ensures (any-Ensures (first_free (s.free_draft rank))) (λ (draft, rest) e.
        Ensures.returned (put_drafts-Aside s (set_rank rank rest s.free_draft), refl)))
      (λ h. Ensures.returned (Aside-refl s, refl))

-- The page has one more reference, and the sequences are as they were.
abbrev Shared : SequencePageTable → PhysicalPageId → SequencePageTable → Type 0
Shared s p t = Step (mark p) nothing s t × (t.sequences ≡ s.sequences)

share_checked-Step :
    (s : SequencePageTable) (mtp : Bool) (ordinal : ℕ) (attachment : PrefixPageAttachment)
    (p : PhysicalPageId) (page : PhysicalPage)
    → lookup_page s p ≡ some page
    → Ensures (Shared s p) (share_checked s mtp ordinal attachment p page)
unfolding share_checked
share_checked-Step s mtp ordinal attachment p page found =
    bind-Ensures (any-Ensures (current_relation page.prefix attachment)) (λ relation e.
      bind-Ensures
        (ensure_draft-Aside s p.owner_rank mtp (upgraded relation page attachment ordinal))
        (λ (drafted, page') (aside, same).
          let there = lookup-Aside aside p ∙ found in
          let kept =
            keep-Step drafted p page page' there
              (same ∙ upgraded-references relation page attachment ordinal) in
          Ensures-mono (retain_page-Step (put_page p page' drafted) p) (λ t (step, sequences). (
            after_quiet (Aside-Step aside) (after_quiet kept step),
            sequences ∙ (unfold put_page in aside.sequences),
          ))))

-- The sequence has a reference to the page that the step returns with the table.
abbrev Taken : SequencePageTable → SequencePageTable × PhysicalPageId → Type 0
Taken s (t, p) = Step (mark p) nothing s t × (t.sequences ≡ s.sequences)

restore_page-Step :
    (s : SequencePageTable) (mtp : Bool) (ordinal : ℕ) (attachment : PrefixPageAttachment)
    → Ensures (Taken s) (restore_page s mtp ordinal attachment)
unfolding restore_page
restore_page-Step s mtp ordinal attachment =
    bind-Ensures (allocate_page-Step s ordinal mtp) (λ (t, p) (step, sequences, new, there, once).
      bind-Ensures (or_fail-Ensures (lookup_page t p) invariant_error) (λ page found.
        bind-Ensures (move_page-references (record page { valid_tokens = page_tokens }) hbm_sealed)
          (λ sealed same.
            let kept =
              keep-Step t p page (record sealed { prefix = some (attachment, ordinal) }) found
                same in
            let full = put_page p (record sealed { prefix = some (attachment, ordinal) }) t in
            let aside = put_prefixes-Aside full (insert attachment.key p full.prefixes) in
            Ensures.returned (
              before_quiet (before_quiet step kept) (Aside-Step aside),
              aside.sequences ∙ (unfold put_page in sequences),
            ))))

attach_at-Step :
    (s : SequencePageTable) (mtp : Bool) (ordinal : ℕ) (attachment : PrefixPageAttachment)
    (entered : Option PhysicalPageId)
    → Ensures (Taken s) (attach_at s mtp ordinal attachment entered)
unfolding attach_at share_page
attach_at-Step s mtp ordinal attachment none = restore_page-Step s mtp ordinal attachment
attach_at-Step s mtp ordinal attachment (some p) =
    bind-Ensures
      (bind-Ensures (or_fail-Ensures (lookup_page s p) prefix_error) (λ page found.
        if-Ensures (shareable p page ordinal attachment)
          (λ h. share_checked-Step s mtp ordinal attachment p page found) (λ h. Ensures.failed)))
      (λ t shared. Ensures.returned shared)

-- The table refers to the pages of the list that is returned with it.
abbrev pub AllTaken : SequencePageTable → SequencePageTable × List SequencePage → Type 0
AllTaken s (t, pages) = Step (λ p. listed p pages) nothing s t × (t.sequences ≡ s.sequences)

pub attach_pages-Step :
    (s : SequencePageTable) (mtp : Bool) (ordinal : ℕ) (seen : List ℕ)
    (attachments : List PrefixPageAttachment)
    → Ensures (AllTaken s) (attach_pages s mtp ordinal seen attachments)
unfolding attach_pages attach_page listed
attach_pages-Step s mtp ordinal seen [] = Ensures.returned (Step-refl s, refl)
attach_pages-Step s mtp ordinal seen (attachment ∷ attachments) =
    guard-Ensures (mtp && not (has_draft attachment)) missing_draft (λ h.
      guard-Ensures (any (λ key. key == attachment.key) seen) prefix_error (λ k.
        bind-Ensures (attach_at-Step s mtp ordinal attachment (find attachment.key s.prefixes))
          (λ (t, p) (step, sequences).
            bind-Ensures (attach_pages-Step t mtp (ordinal + 1) (attachment.key ∷ seen) attachments)
              (λ (u, pages) (steps, same).
                Ensures.returned (Step-trans step steps (λ q. omega arith), same ∙ sequences)))))

copy_tail-Step :
    (s : SequencePageTable) (mtp : Bool) (source : SequencePage) (page : PhysicalPage)
    → Ensures (λ (t, e). Taken s (t, e.physical)) (copy_tail s mtp source page)
unfolding copy_tail
copy_tail-Step s mtp source page =
    bind-Ensures (allocate_page-Step s source.ordinal mtp)
      (λ (t, p) (step, sequences, new, there, once).
        bind-Ensures (or_fail-Ensures (lookup_page t p) invariant_error) (λ copy found.
          let kept =
            keep-Step t p copy (record copy { valid_tokens = page.valid_tokens }) found refl in
          Ensures.returned (before_quiet step kept, unfold put_page in sequences)))

fork_page-Step :
    (s : SequencePageTable) (mtp : Bool) (source : SequencePage)
    → Ensures (λ (t, e). Taken s (t, e.physical)) (fork_page s mtp source)
unfolding fork_page fork_found
fork_page-Step s mtp source =
    bind-Ensures (any-Ensures (or_fail (lookup_page s source.physical) invariant_error)) (λ page e.
      if-Ensures (is_full page)
        (λ h.
          bind-Ensures (retain_page-Step s source.physical) (λ t shared. Ensures.returned shared))
        (λ h.
          if-Ensures
            (state_eq page.state hbm_mutable
              && ltb page.valid_tokens page_tokens
              && page.references == 1)
            (λ k. copy_tail-Step s mtp source page) (λ k. Ensures.failed)))

pub fork_pages-Step :
    (s : SequencePageTable) (mtp : Bool) (sources : List SequencePage)
    → Ensures (AllTaken s) (fork_pages s mtp sources)
unfolding fork_pages listed
fork_pages-Step s mtp [] = Ensures.returned (Step-refl s, refl)
fork_pages-Step s mtp (source ∷ sources) =
    bind-Ensures (fork_page-Step s mtp source) (λ (t, e) (step, sequences).
      bind-Ensures (fork_pages-Step t mtp sources) (λ (u, pages) (steps, same).
        Ensures.returned (Step-trans step steps (λ q. omega arith), same ∙ sequences)))
