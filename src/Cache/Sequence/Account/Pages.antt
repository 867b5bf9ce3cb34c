-- ===== src/Cache/Sequence/Account/Pages.antt =====
-- The balance under the changes of one physical page: crates/glm-cache/src/sequence.rs.
use glmaxx.Base.{
  ℕ, ◌+◌, ◌≤◌, ◌≡◌, refl, subst, inl, inr, true, ◌&&◌, none, some, ◌==◌, if◌then◌else◌, is_some,
  Bool-cases, ==→eq, ==-refl, arith,
}
use glmaxx.Base.Maps.{Map, find, insert, adjust, find-insert, find-adjust}
use glmaxx.Cache.Sequence.{
  PhysicalPageId, page_eq, PhysicalPage, SequencePageTable, Ranks, set_rank,
}
use glmaxx.Cache.Sequence.Store.{erase, lookup_page, put_page, insert_page, remove_page}
use glmaxx.Cache.Sequence.Account.Maps.{occurrences, present, find-erase}
use glmaxx.Cache.Sequence.Account.Step.{recorded, held, Step, Step-eq, pages-Step, nothing}

module _ (phys : Ranks (Map PhysicalPage)) (r' i' r i : ℕ) where
  find-adjust_at :
      (page : PhysicalPage)
      → is_some (find i (phys r)) ≡ true
      → find i' (set_rank r (adjust i (λ _. page) (phys r)) phys r')
        ≡ (if r == r' && i == i' then some page else find i' (phys r'))
  find-adjust_at page h = elim (Bool-cases (r' == r)) [
    | inl same ↦
        let e = ==→eq r' r same in
        rw (e, ==-refl r, find-adjust i' i (λ _. page) (phys r)) (ground (arith, h))
    | inr other ↦ rw other (ground arith)
  ]

  find-insert_at :
      (page : PhysicalPage)
      → find i' (set_rank r (insert i page (phys r)) phys r')
        ≡ (if r == r' && i == i' then some page else find i' (phys r'))
  find-insert_at page = elim (Bool-cases (r' == r)) [
    | inl same ↦
        let e = ==→eq r' r same in rw (e, ==-refl r, find-insert i' i page (phys r)) (ground arith)
    | inr other ↦ rw other (ground arith)
  ]

  find-erase_at :
      find i' (set_rank r (erase i (phys r)) phys r')
      ≡ (if r == r' && i == i' then none else find i' (phys r'))
  find-erase_at = elim (Bool-cases (r' == r)) [
    | inl same ↦
        let e = ==→eq r' r same in rw (e, ==-refl r, find-erase i' i (phys r)) (ground arith)
    | inr other ↦ rw other (ground arith)
  ]

pub lookup-put :
    (q p : PhysicalPageId) (page : PhysicalPage) (s : SequencePageTable)
    → is_some (lookup_page s p) ≡ true
    → lookup_page (put_page p page s) q ≡ (if page_eq p q then some page else lookup_page s q)
unfolding lookup_page put_page page_eq
lookup-put q p page s h =
    find-adjust_at s.physical q.owner_rank q.target_local_page_id p.owner_rank
      p.target_local_page_id page h

pub lookup-insert :
    (q p : PhysicalPageId) (page : PhysicalPage) (s : SequencePageTable)
    → lookup_page (insert_page p page s) q ≡ (if page_eq p q then some page else lookup_page s q)
unfolding lookup_page insert_page page_eq
lookup-insert q p page s =
    find-insert_at s.physical q.owner_rank q.target_local_page_id p.owner_rank
      p.target_local_page_id page

pub lookup-remove :
    (q p : PhysicalPageId) (s : SequencePageTable)
    → lookup_page (remove_page p s) q ≡ (if page_eq p q then none else lookup_page s q)
unfolding lookup_page remove_page page_eq
lookup-remove q p s =
    find-erase_at s.physical q.owner_rank q.target_local_page_id p.owner_rank p.target_local_page_id

pub page_eq→eq : (p q : PhysicalPageId) → page_eq p q ≡ true → p ≡ q
unfolding page_eq
page_eq→eq p q h =
    let ranks : p.owner_rank ≡ q.owner_rank = ground arith in
    let ids : p.target_local_page_id ≡ q.target_local_page_id = ground arith in
    λ i. record { owner_rank = ranks i; target_local_page_id = ids i }

pub page_eq_refl : (p : PhysicalPageId) → page_eq p p ≡ true
unfolding page_eq
page_eq_refl p = ground arith

abbrev pub at_page : ℕ → ℕ → PhysicalPageId
at_page rank id = record { owner_rank = rank; target_local_page_id = id }

pub held_at :
    (s : SequencePageTable) (rank id : ℕ)
    → held s rank id
      ≡ occurrences id (s.free_target rank)
        + occurrences id (s.quarantined_target rank)
        + present (lookup_page s (at_page rank id))
unfolding held lookup_page
held_at s rank id = refl

module _ (s : SequencePageTable) (p : PhysicalPageId) (page page' : PhysicalPage) where
  module _ (found : lookup_page s p ≡ some page) where
    found_at : (q : PhysicalPageId) → page_eq p q ≡ true → lookup_page s q ≡ some page
    found_at q same = subst (λ r. lookup_page s r ≡ some page) (page_eq→eq p q same) found

    present-put :
        (q : PhysicalPageId)
        → present (lookup_page (put_page p page' s) q) ≡ present (lookup_page s q)
    present-put q =
        let after = lookup-put q p page' s (rw found) in
        elim (Bool-cases (page_eq p q)) [
          | inl same ↦ rw (after, same, found_at q same)
          | inr other ↦ rw (after, other)
        ]

    put-conserved : (rank id : ℕ) → held (put_page p page' s) rank id ≡ held s rank id
    put-conserved rank id =
        let a = held_at (put_page p page' s) rank id in
        let b = held_at s rank id in
        let c = present-put (at_page rank id) in unfold put_page in omega (arith, a, b, c)

    module _ (gained lost : ℕ) (change : page'.references + lost ≡ page.references + gained) where
      recorded-put :
          (q : PhysicalPageId)
          → recorded (put_page p page' s) q + (if page_eq p q then lost else 0)
            ≡ recorded s q + (if page_eq p q then gained else 0)
      unfolding recorded
      recorded-put q =
          let after = lookup-put q p page' s (rw found) in
          elim (Bool-cases (page_eq p q)) [
            | inl same ↦ rw (after, same, found_at q same) (change)
            | inr other ↦ rw (after, other) (refl)
          ]

      live-put :
          (1 ≤ page.references → 1 ≤ page'.references)
          → ((q : PhysicalPageId) → present (lookup_page s q) ≤ recorded s q)
          → (q : PhysicalPageId)
          → present (lookup_page (put_page p page' s) q) ≤ recorded (put_page p page' s) q
      unfolding recorded
      live-put alive h q =
          let after = lookup-put q p page' s (rw found) in
          elim (Bool-cases (page_eq p q)) [
            | inl same ↦
                let before : 1 ≤ page.references = rw (found_at q same) at (h q) in
                rw (after, same) (alive before)
            | inr other ↦ rw (after, other) (h q)
          ]

      -- A write to a page that is there, which changes its references by what is gained and lost.
      pub put-Step :
          (1 ≤ page.references → 1 ≤ page'.references)
          → Step
              (λ q. if page_eq p q then gained else 0)
              (λ q. if page_eq p q then lost else 0)
              s
              (put_page p page' s)
      put-Step alive =
          pages-Step s (put_page p page' s) (unfold put_page in refl) (unfold put_page in refl)
            (unfold put_page in refl) put-conserved (λ rank id. unfold put_page in omega arith)
            (λ rank id. unfold put_page in omega arith) recorded-put (live-put alive)

-- A write to a page that keeps its references.
pub keep-Step :
    (s : SequencePageTable) (p : PhysicalPageId) (page page' : PhysicalPage)
    → lookup_page s p ≡ some page
    → page'.references ≡ page.references
    → Step nothing nothing s (put_page p page' s)
keep-Step s p page page' found same =
    Step-eq (put-Step s p page page' found 0 0 (omega arith) (λ h. omega arith)) (λ q. refl)
