-- ===== src/Cache/Sequence/Account/Release.antt =====
-- The balance under another reference to a page and under the release of one:
-- crates/glm-cache/src/sequence.rs, `release_page`.
use glmaxx.Base.{
  ℕ, ◌+◌, ◌≡◌, refl, ap, ◌∙◌, subst, inl, inr, true, ◌&&◌, ◌||◌, List, Option, none, some, ◌==◌,
  if◌then◌else◌, Bool-cases, ==→eq, ==-refl, arith, checked_sub, checked_add, u32_max,
}
use glmaxx.Base.Ensures.{
  Ensures, bind-Ensures, or_fail-Ensures, if-Ensures, guard-Ensures, Ensures-mono,
}
use glmaxx.Base.Maps.{find}
use glmaxx.Cache.Sequence.{
  PhysicalPageId, page_eq, PhysicalPage, PrefixPageAttachment, SequencePageTable, overflow,
  invariant_error, Ranks, set_rank,
}
use glmaxx.Cache.Sequence.Store.{
  erase, set_insert, set_has, lookup_page, put_page, remove_page, forget_prefix, quarantine_target,
  quarantine_draft, retire_page, release_reference, release_page, retain_page,
}
use glmaxx.Cache.Sequence.Account.Maps.{occurrences, occurrences-set_insert, present}
use glmaxx.Cache.Sequence.Account.Step.{
  recorded, mark, held, Step, Step-trans, Step-eq, pages-Step, nothing,
}
use glmaxx.Cache.Sequence.Account.Pages.{lookup-remove, page_eq→eq, at_page, held_at, put-Step}
use glmaxx.Cache.Sequence.Account.Allocate.{
  Aside, Aside-Step, Aside-refl, Aside-trans, put_prefixes-Aside, put_retired_drafts-Aside,
}

pub retain_page-Step :
    (s : SequencePageTable) (p : PhysicalPageId)
    → Ensures (λ t. Step (mark p) nothing s t × (t.sequences ≡ s.sequences)) (retain_page s p)
unfolding retain_page
retain_page-Step s p =
    bind-Ensures (or_fail-Ensures (lookup_page s p) invariant_error) (λ page found.
      bind-Ensures (or_fail-Ensures (checked_add u32_max page.references 1) overflow)
        (λ references sum.
          let more : references ≡ page.references + 1 = ground arith in
          Ensures.returned (
            Step-eq
                (put-Step s p page (record page { references = references }) found 1 0 (omega arith)
                  (λ h. omega arith))
                (λ q. unfold mark in ground arith),
            unfold put_page in refl,
          )))

occurrences-insert_at :
    (sets : Ranks (List ℕ)) (r id rank target : ℕ)
    → occurrences id (set_rank rank (set_insert target (sets rank)) sets r)
      ≡ (if rank == r && target == id then 1 else 0) + occurrences id (sets r)
unfolding occurrences
occurrences-insert_at sets r id rank target = elim (Bool-cases (r == rank)) [
  | inl same ↦
      let e = ==→eq r rank same in
      rw (e, ==-refl rank, occurrences-set_insert id target (sets rank)) (ground arith)
  | inr other ↦ rw other (ground arith)
]

module _ (s : SequencePageTable) (p : PhysicalPageId) (page : PhysicalPage) where
  abbrev retired : SequencePageTable
  retired = record (remove_page p s) {
    quarantined_target =
        set_rank p.owner_rank
          (set_insert p.target_local_page_id (s.quarantined_target p.owner_rank))
          s.quarantined_target;
  }

  lookup-retired :
      (q : PhysicalPageId) → lookup_page retired q ≡ (if page_eq p q then none else lookup_page s q)
  lookup-retired q =
      let same : lookup_page retired q ≡ lookup_page (remove_page p s) q =
        unfold lookup_page in refl in
      same ∙ lookup-remove q p s

  occurrences-retired :
      (r id : ℕ)
      → occurrences id (retired.quarantined_target r)
        ≡ mark p (at_page r id) + occurrences id (s.quarantined_target r)
  unfolding mark page_eq
  occurrences-retired r id =
      occurrences-insert_at s.quarantined_target r id p.owner_rank p.target_local_page_id

  retired-Aside :
      (t : SequencePageTable)
      → Aside (remove_page p s) t
      → Aside retired (record t {
        quarantined_target =
            set_rank p.owner_rank
              (set_insert p.target_local_page_id (t.quarantined_target p.owner_rank))
              t.quarantined_target;
      })
  unfolding remove_page
  retired-Aside t a = record {
    config = a.config;
    generation = a.generation;
    sequences = a.sequences;
    free_target = a.free_target;
    quarantined_target =
        ap
          (λ (sets : Ranks (List ℕ)).
            set_rank p.owner_rank (set_insert p.target_local_page_id (sets p.owner_rank)) sets)
          a.quarantined_target;
    physical = a.physical;
  }

  module _ (found : lookup_page s p ≡ some page) (once : page.references ≡ 1) where
    found_at : (q : PhysicalPageId) → page_eq p q ≡ true → lookup_page s q ≡ some page
    found_at q same = subst (λ r. lookup_page s r ≡ some page) (page_eq→eq p q same) found

    present-retired :
        (q : PhysicalPageId)
        → present (lookup_page retired q) + mark p q ≡ present (lookup_page s q)
    unfolding mark
    present-retired q = elim (Bool-cases (page_eq p q)) [
      | inl same ↦ rw (lookup-retired q, same, found_at q same) (omega arith)
      | inr other ↦ rw (lookup-retired q, other) (omega arith)
    ]

    recorded-retired : (q : PhysicalPageId) → recorded retired q + mark p q ≡ recorded s q
    unfolding mark recorded
    recorded-retired q = elim (Bool-cases (page_eq p q)) [
      | inl same ↦ rw (lookup-retired q, same, found_at q same) (omega arith)
      | inr other ↦ rw (lookup-retired q, other) (omega arith)
    ]

    held-retired : (r id : ℕ) → held retired r id ≡ held s r id
    held-retired r id =
        let a = held_at retired r id in
        let b = held_at s r id in
        let c = present-retired (at_page r id) in
        let d = occurrences-retired r id in unfold remove_page in omega (arith, a, b, c, d)

    retired-Step : Step nothing (mark p) s retired
    retired-Step =
        pages-Step s retired (unfold remove_page in refl) (unfold remove_page in refl)
          (unfold remove_page in refl) held-retired (λ r id. unfold remove_page in omega arith)
          (λ r id. omega (arith, occurrences-retired r id)) (λ q. omega (arith, recorded-retired q))
          (λ h q. omega (arith, recorded-retired q, present-retired q, h q))

forget_prefix-Aside :
    (s : SequencePageTable) (p : PhysicalPageId) (prefix : Option (PrefixPageAttachment × ℕ))
    → Ensures (Aside s) (forget_prefix s p prefix)
unfolding forget_prefix
forget_prefix-Aside s p none = Ensures.returned (Aside-refl s)
forget_prefix-Aside s p (some (attachment, ordinal)) =
    bind-Ensures (or_fail-Ensures (find attachment.key s.prefixes) invariant_error) (λ q found.
      if-Ensures (page_eq q p)
        (λ h. Ensures.returned (put_prefixes-Aside s (erase attachment.key s.prefixes)))
        (λ h. Ensures.failed))

quarantine_draft-Aside :
    (s : SequencePageTable) (rank : ℕ) (draft : Option ℕ)
    → Ensures (Aside s) (quarantine_draft s rank draft)
unfolding quarantine_draft
quarantine_draft-Aside s rank none = Ensures.returned (Aside-refl s)
quarantine_draft-Aside s rank (some draft) =
    guard-Ensures (set_has (s.free_draft rank) draft || set_has (s.quarantined_draft rank) draft)
      invariant_error
      (λ h. Ensures.returned (
        put_retired_drafts-Aside s
          (set_rank rank (set_insert draft (s.quarantined_draft rank)) s.quarantined_draft)))

-- The page was released: one reference less.
abbrev pub Released : PhysicalPageId → SequencePageTable → SequencePageTable → Type 0
Released p s t = Step nothing (mark p) s t × (t.sequences ≡ s.sequences)

retire_page-Step :
    (s : SequencePageTable) (p : PhysicalPageId) (page : PhysicalPage)
    → lookup_page s p ≡ some page
    → page.references ≡ 1
    → Ensures (Released p s) (retire_page s p page)
unfolding retire_page quarantine_target
retire_page-Step s p page found once =
    bind-Ensures (forget_prefix-Aside (remove_page p s) p page.prefix) (λ forgotten aside.
      bind-Ensures
        (guard-Ensures
          (set_has (forgotten.free_target p.owner_rank) p.target_local_page_id
            || set_has (forgotten.quarantined_target p.owner_rank) p.target_local_page_id)
          invariant_error (λ h. Ensures.returned (retired-Aside s p page forgotten aside)))
        (λ t inner.
          Ensures-mono (quarantine_draft-Aside t p.owner_rank page.draft_local_page_id) (λ u outer.
            (
              Step-trans (retired-Step s p page found once) (Aside-Step (Aside-trans inner outer))
                  (λ q. omega arith),
              outer.sequences ∙ inner.sequences ∙ (unfold remove_page in refl),
            ))))

pub release_page-Step :
    (s : SequencePageTable) (p : PhysicalPageId) → Ensures (Released p s) (release_page s p)
unfolding release_page release_reference
release_page-Step s p =
    bind-Ensures (or_fail-Ensures (lookup_page s p) invariant_error) (λ page found.
      bind-Ensures (or_fail-Ensures (checked_sub page.references 1) invariant_error)
        (λ references less.
          if-Ensures (references == 0) (λ last. retire_page-Step s p page found (ground arith))
            (λ more. Ensures.returned (
              Step-eq
                  (put-Step s p page (record page { references = references }) found 0 1
                    (ground arith) (λ h. ground arith))
                  (λ q. unfold mark in ground arith),
              unfold put_page in refl,
            ))))
