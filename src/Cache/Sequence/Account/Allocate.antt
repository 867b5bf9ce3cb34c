-- ===== src/Cache/Sequence/Account/Allocate.antt =====
-- The balance under the allocation of a page: crates/glm-cache/src/sequence.rs, `allocate_page`.
use glmaxx.Base.{
  ℕ, ◌+◌, ◌≡◌, refl, ap, sym, ◌∙◌, subst, inl, inr, Bool, true, false, List, [], ◌∷◌, Option, none,
  some, ◌==◌, if◌then◌else◌, is_some, Bool-cases, ==→eq, ==-refl, arith,
}
use glmaxx.Base.Ensures.{Ensures, bind-Ensures, guard-Ensures, any-Ensures}
use glmaxx.Base.Maps.{Map, find, insert}
use glmaxx.Cache.Page.{PageState, hbm_mutable, transition, owner_rank}
use glmaxx.Cache.Sequence.{
  PhysicalPageId, page_eq, PhysicalPage, SequencePageTable, invariant_error, Ranks, set_rank,
}
use glmaxx.Cache.Sequence.Store.{
  lookup_page, insert_page, move_page, from_transition, first_free, take_draft, fresh_page, occupy,
  allocate_at, allocate_page,
}
use glmaxx.Cache.Sequence.Account.Maps.{occurrences, present}
use glmaxx.Cache.Sequence.Account.Step.{recorded, mark, held, Step, Step-trans, pages-Step, nothing}
use glmaxx.Cache.Sequence.Account.Pages.{lookup-insert, page_eq→eq, page_eq_refl, at_page, held_at}

-- The tables differ only in their drafts and prefixes.
pub record Aside (s t : SequencePageTable) : Type 0 where
  pub config : t.config ≡ s.config
  pub generation : t.quarantine_generation ≡ s.quarantine_generation
  pub sequences : t.sequences ≡ s.sequences
  pub free_target : t.free_target ≡ s.free_target
  pub quarantined_target : t.quarantined_target ≡ s.quarantined_target
  pub physical : t.physical ≡ s.physical

pub lookup-Aside :
    {s t : SequencePageTable} → Aside s t → (p : PhysicalPageId) → lookup_page t p ≡ lookup_page s p
unfolding lookup_page
lookup-Aside a p =
    ap (λ (m : Ranks (Map PhysicalPage)). find p.target_local_page_id (m p.owner_rank)) a.physical

held-Aside : {s t : SequencePageTable} → Aside s t → (rank id : ℕ) → held t rank id ≡ held s rank id
unfolding held
held-Aside a rank id =
    let free = ap (λ (f : Ranks (List ℕ)). occurrences id (f rank)) a.free_target in
    let retired = ap (λ (f : Ranks (List ℕ)). occurrences id (f rank)) a.quarantined_target in
    let used = ap (λ (m : Ranks (Map PhysicalPage)). present (find id (m rank))) a.physical in
    omega arith

pub Aside-Step : {s t : SequencePageTable} → Aside s t → Step nothing nothing s t
Aside-Step {s} {t} a =
    pages-Step s t a.config a.generation a.sequences (held-Aside a)
      (λ rank id.
        let e = ap (λ (f : Ranks (List ℕ)). occurrences id (f rank)) a.free_target in omega arith)
      (λ rank id.
        let e = ap (λ (f : Ranks (List ℕ)). occurrences id (f rank)) a.quarantined_target in
        omega arith)
      (λ p. unfold recorded in rw (lookup-Aside a p))
      (λ h p. unfold recorded in rw (lookup-Aside a p) (unfold recorded in h p))

pub Aside-trans : {s t u : SequencePageTable} → Aside s t → Aside t u → Aside s u
Aside-trans a b = record {
  config = b.config ∙ a.config;
  generation = b.generation ∙ a.generation;
  sequences = b.sequences ∙ a.sequences;
  free_target = b.free_target ∙ a.free_target;
  quarantined_target = b.quarantined_target ∙ a.quarantined_target;
  physical = b.physical ∙ a.physical;
}

pub move_page-references :
    (page : PhysicalPage) (next : PageState)
    → Ensures (λ moved. moved.references ≡ page.references) (move_page page next)
unfolding move_page
move_page-references page next =
    bind-Ensures (any-Ensures (from_transition (transition page.state next)))
      (λ state e. Ensures.returned refl)

pub first_free-first : (free : List ℕ) → Ensures (λ (id, rest). free ≡ id ∷ rest) (first_free free)
unfolding first_free
first_free-first [] = Ensures.failed
first_free-first (id ∷ rest) = Ensures.returned refl

-- The parts that differ may be replaced.
pub put-Aside :
    (s : SequencePageTable) (drafts retired : Ranks (List ℕ)) (prefixes : Map PhysicalPageId)
    → Aside s (record s { free_draft = drafts; quarantined_draft = retired; prefixes = prefixes })
put-Aside s drafts retired prefixes = record {
  config = refl;
  generation = refl;
  sequences = refl;
  free_target = refl;
  quarantined_target = refl;
  physical = refl;
}

pub Aside-refl : (s : SequencePageTable) → Aside s s
Aside-refl s = put-Aside s s.free_draft s.quarantined_draft s.prefixes

pub put_drafts-Aside :
    (s : SequencePageTable) (drafts : Ranks (List ℕ)) → Aside s (record s { free_draft = drafts })
put_drafts-Aside s drafts = put-Aside s drafts s.quarantined_draft s.prefixes

pub put_retired_drafts-Aside :
    (s : SequencePageTable) (drafts : Ranks (List ℕ))
    → Aside s (record s { quarantined_draft = drafts })
put_retired_drafts-Aside s drafts = put-Aside s s.free_draft drafts s.prefixes

pub put_prefixes-Aside :
    (s : SequencePageTable) (prefixes : Map PhysicalPageId)
    → Aside s (record s { prefixes = prefixes })
put_prefixes-Aside s prefixes = put-Aside s s.free_draft s.quarantined_draft prefixes

take_draft-Aside :
    (s : SequencePageTable) (rank : ℕ) (mtp : Bool)
    → Ensures (λ r. Aside s r.0) (take_draft s rank mtp)
unfolding take_draft
take_draft-Aside s rank false = Ensures.returned (put_drafts-Aside s s.free_draft)
take_draft-Aside s rank true =
    bind-Ensures (any-Ensures (first_free (s.free_draft rank)))
      (λ (draft, rest) e. Ensures.returned (put_drafts-Aside s (set_rank rank rest s.free_draft)))

abbrev take_first : ℕ → List ℕ → SequencePageTable → SequencePageTable
take_first rank rest s = record s { free_target = set_rank rank rest s.free_target }

pub missing : {A : Type 0} (o : Option A) → is_some o ≡ false → o ≡ none
missing none h = refl
missing (some a) h = cc

-- The page is new and has the one reference of the caller.
abbrev pub Allocated : SequencePageTable → SequencePageTable × PhysicalPageId → Type 0
Allocated s (t, p) =
    Step (mark p) nothing s t
    × (t.sequences ≡ s.sequences)
    × (page : PhysicalPage) × (lookup_page t p ≡ some page)
    × (page.references ≡ 1)

module _ (s : SequencePageTable) (rank target : ℕ) (rest : List ℕ) (page : PhysicalPage) where
  abbrev added : SequencePageTable
  added = insert_page (at_page rank target) page (take_first rank rest s)

  lookup-added :
      (q : PhysicalPageId)
      → lookup_page added q
        ≡ (if page_eq (at_page rank target) q then some page else lookup_page s q)
  lookup-added q =
      lookup-insert q (at_page rank target) page (take_first rank rest s)
      ∙ (unfold lookup_page in refl)

  module _ (first : s.free_target rank ≡ target ∷ rest)
      (new : lookup_page s (at_page rank target) ≡ none) (once : page.references ≡ 1) where
    occurrences-first :
        (r id : ℕ)
        → occurrences id (s.free_target r)
          ≡ mark (at_page rank target) (at_page r id)
            + occurrences id (set_rank rank rest s.free_target r)
    unfolding mark page_eq occurrences
    occurrences-first r id = elim (Bool-cases (r == rank)) [
      | inl same ↦ let e = ==→eq r rank same in rw (e, ==-refl rank, first) (ground arith)
      | inr other ↦ rw other (ground arith)
    ]

    new_at : (q : PhysicalPageId) → page_eq (at_page rank target) q ≡ true → lookup_page s q ≡ none
    new_at q same =
        subst (λ r. lookup_page s r ≡ none) (page_eq→eq (at_page rank target) q same) new

    present-added :
        (q : PhysicalPageId)
        → present (lookup_page added q) ≡ present (lookup_page s q) + mark (at_page rank target) q
    unfolding mark
    present-added q = elim (Bool-cases (page_eq (at_page rank target) q)) [
      | inl same ↦ rw (lookup-added q, same, new_at q same) (refl)
      | inr other ↦ rw (lookup-added q, other) (omega arith)
    ]

    recorded-added :
        (q : PhysicalPageId) → recorded added q ≡ recorded s q + mark (at_page rank target) q
    unfolding mark recorded
    recorded-added q = elim (Bool-cases (page_eq (at_page rank target) q)) [
      | inl same ↦ rw (lookup-added q, same, new_at q same) (once)
      | inr other ↦ rw (lookup-added q, other) (omega arith)
    ]

    held-added : (r id : ℕ) → held added r id ≡ held s r id
    held-added r id =
        let a = held_at added r id in
        let b = held_at s r id in
        let c = present-added (at_page r id) in
        let d = occurrences-first r id in unfold insert_page in omega (arith, a, b, c, d)

    -- The first free page of a rank comes into use with one reference.
    insert-Step : Step (mark (at_page rank target)) nothing s added
    insert-Step =
        pages-Step s added (unfold insert_page in refl) (unfold insert_page in refl)
          (unfold insert_page in refl) held-added
          (λ r id. unfold insert_page in omega (arith, occurrences-first r id))
          (λ r id. unfold insert_page in omega arith) (λ q. omega (arith, recorded-added q))
          (λ h q. omega (arith, recorded-added q, present-added q, h q))

  insert-Aside :
      (t : SequencePageTable)
      → Aside (take_first rank rest s) t
      → Aside added (insert_page (at_page rank target) page t)
  unfolding insert_page
  insert-Aside t a = record {
    config = a.config;
    generation = a.generation;
    sequences = a.sequences;
    free_target = a.free_target;
    quarantined_target = a.quarantined_target;
    physical =
        ap (λ (m : Ranks (Map PhysicalPage)). set_rank rank (insert target page (m rank)) m)
          a.physical;
  }

  occupy-Step :
      (t : SequencePageTable)
      → Aside (take_first rank rest s) t
      → s.free_target rank ≡ target ∷ rest
      → page.references ≡ 1
      → Ensures (Allocated s) (occupy t (at_page rank target) page)
  unfolding occupy
  occupy-Step t a first once =
      guard-Ensures (is_some (lookup_page t (at_page rank target))) invariant_error (λ h.
        let new = sym (lookup-Aside a (at_page rank target)) ∙ missing _ h in
        Ensures.returned (
          Step-trans (insert-Step first (unfold lookup_page in new) once)
              (Aside-Step (insert-Aside t a)) (λ q. omega arith),
          unfold insert_page in a.sequences,
          page,
          rw (
            lookup-insert (at_page rank target) (at_page rank target) page t,
            page_eq_refl (at_page rank target),
          ),
          once,
        ))

pub allocate_page-Step :
    (s : SequencePageTable) (ordinal : ℕ) (mtp : Bool)
    → Ensures (Allocated s) (allocate_page s ordinal mtp)
unfolding allocate_page allocate_at
allocate_page-Step s ordinal mtp =
    let rank = owner_rank ordinal in
    bind-Ensures (first_free-first (s.free_target rank)) (λ (target, rest) first.
      bind-Ensures (take_draft-Aside (take_first rank rest s) rank mtp) (λ (drafted, draft) aside.
        bind-Ensures (move_page-references (fresh_page draft) hbm_mutable)
          (λ page once. occupy-Step s rank target rest page drafted aside first once)))
