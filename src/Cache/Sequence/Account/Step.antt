-- ===== src/Cache/Sequence/Account/Step.antt =====
-- How one step changes the page table's balance: crates/glm-cache/src/sequence.rs.
use glmaxx.Base.{
  ℕ, ◌+◌, ◌≤◌, ◌≡◌, refl, ap, sym, ◌∙◌, subst, List, [], ◌∷◌, Option, none, some, if◌then◌else◌,
  arith,
}
use glmaxx.Base.Maps.{find, Ascending}
use glmaxx.Cache.Sequence.{PhysicalPageId, page_eq, PhysicalPage, SequencePage, SequencePageTable}
use glmaxx.Cache.Sequence.Store.{lookup_page}
use glmaxx.Cache.Sequence.Account.Maps.{occurrences, present, summed}

-- The references that the table records for a page, none where there is no page.
abbrev pub references_of : Option PhysicalPage → ℕ
references_of none = 0
references_of (some page) = page.references

unfoldable pub recorded : SequencePageTable → PhysicalPageId → ℕ
recorded s p = references_of (lookup_page s p)

-- One for the page itself.
unfoldable pub mark : PhysicalPageId → PhysicalPageId → ℕ
mark q p = if page_eq q p then 1 else 0

-- How often a page is in a sequence's list.
unfoldable pub listed : PhysicalPageId → List SequencePage → ℕ
listed p [] = 0
listed p (e ∷ es) = mark e.physical p + listed p es

-- How often a page is in the sequences of the table.
unfoldable pub mentions : SequencePageTable → PhysicalPageId → ℕ
mentions s p = summed (λ q. listed p q.pages) s.sequences

-- How often the table holds a rank's target page, as free, as retired or in use.
unfoldable pub held : SequencePageTable → ℕ → ℕ → ℕ
held s rank id =
    occurrences id (s.free_target rank)
    + occurrences id (s.quarantined_target rank)
    + present (find id (s.physical rank))

-- A step keeps the count of every identifier, makes none free, keeps the retired, and changes a page's references
-- against its mentions by what it gains and loses.
pub record Step (gained lost : PhysicalPageId → ℕ) (s t : SequencePageTable) : Type 0 where
  pub same_config : t.config ≡ s.config
  pub same_generation : t.quarantine_generation ≡ s.quarantine_generation
  pub conserved : (rank id : ℕ) → held t rank id ≡ held s rank id
  pub not_freed :
      (rank id : ℕ) → occurrences id (t.free_target rank) ≤ occurrences id (s.free_target rank)
  pub still_retired :
      (rank id : ℕ)
      → occurrences id (s.quarantined_target rank) ≤ occurrences id (t.quarantined_target rank)
  pub balance :
      (p : PhysicalPageId)
      → recorded t p + mentions s p + lost p ≡ recorded s p + mentions t p + gained p
  pub live :
      ((p : PhysicalPageId) → present (lookup_page s p) ≤ recorded s p)
      → (p : PhysicalPageId) → present (lookup_page t p) ≤ recorded t p
  pub ordered : Ascending 0 s.sequences → Ascending 0 t.sequences

pub mentions-same :
    (s t : SequencePageTable) (p : PhysicalPageId)
    → t.sequences ≡ s.sequences
    → mentions t p ≡ mentions s p
unfolding mentions
mentions-same s t p e = ap (summed (λ q. listed p q.pages)) e

-- A step that leaves the sequences and the free identifiers of every rank as they are.
pub pages-Step :
    {gained lost : PhysicalPageId → ℕ} (s t : SequencePageTable)
    → t.config ≡ s.config
    → t.quarantine_generation ≡ s.quarantine_generation
    → t.sequences ≡ s.sequences
    → ((rank id : ℕ) → held t rank id ≡ held s rank id)
    → ((rank id : ℕ) → occurrences id (t.free_target rank) ≤ occurrences id (s.free_target rank))
    → ((rank id : ℕ)
        → occurrences id (s.quarantined_target rank) ≤ occurrences id (t.quarantined_target rank))
    → ((p : PhysicalPageId) → recorded t p + lost p ≡ recorded s p + gained p)
    → (((p : PhysicalPageId) → present (lookup_page s p) ≤ recorded s p)
        → (p : PhysicalPageId) → present (lookup_page t p) ≤ recorded t p)
    → Step gained lost s t
pages-Step s t config generation sequences held_same freed kept recorded_change alive = record {
  same_config = config;
  same_generation = generation;
  conserved = held_same;
  not_freed = freed;
  still_retired = kept;
  balance = λ p. omega (arith, mentions-same s t p sequences, recorded_change p);
  live = alive;
  ordered = λ h. subst (Ascending 0) (sym sequences) h;
}

abbrev pub nothing : PhysicalPageId → ℕ
nothing p = 0

pub Step-refl : (s : SequencePageTable) → Step nothing nothing s s
Step-refl s = record {
  same_config = refl;
  same_generation = refl;
  conserved = λ rank id. refl;
  not_freed = λ rank id. omega arith;
  still_retired = λ rank id. omega arith;
  balance = λ p. omega arith;
  live = λ h. h;
  ordered = λ h. h;
}

pub Step-trans :
    {g l g' l' g'' l'' : PhysicalPageId → ℕ} {s t u : SequencePageTable}
    → Step g l s t
    → Step g' l' t u
    → ((p : PhysicalPageId) → g p + g' p + l'' p ≡ l p + l' p + g'' p)
    → Step g'' l'' s u
Step-trans a b e = record {
  same_config = b.same_config ∙ a.same_config;
  same_generation = b.same_generation ∙ a.same_generation;
  conserved = λ rank id. b.conserved rank id ∙ a.conserved rank id;
  not_freed = λ rank id. omega (arith, a.not_freed rank id, b.not_freed rank id);
  still_retired = λ rank id. omega (arith, a.still_retired rank id, b.still_retired rank id);
  balance = λ p. omega (arith, a.balance p, b.balance p, e p);
  live = λ h. b.live (a.live h);
  ordered = λ h. b.ordered (a.ordered h);
}

-- The same step under another account of what it gains and loses.
pub Step-eq :
    {g l g' l' : PhysicalPageId → ℕ} {s t : SequencePageTable}
    → Step g l s t
    → ((p : PhysicalPageId) → g p + l' p ≡ l p + g' p)
    → Step g' l' s t
Step-eq {t} a e = Step-trans a (Step-refl t) (λ p. omega (arith, e p))

-- Before and after a step there may be steps that change no balance.
pub after_quiet :
    {g l : PhysicalPageId → ℕ} {s t u : SequencePageTable}
    → Step nothing nothing s t
    → Step g l t u
    → Step g l s u
after_quiet {g} {l} a b = Step-trans {g'' = g} {l'' = l} a b (λ p. omega arith)

pub before_quiet :
    {g l : PhysicalPageId → ℕ} {s t u : SequencePageTable}
    → Step g l s t
    → Step nothing nothing t u
    → Step g l s u
before_quiet {g} {l} a b = Step-trans {g'' = g} {l'' = l} a b (λ p. omega arith)
