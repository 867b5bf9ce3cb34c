-- ===== src/Cache/Sequence/History/Pages.antt =====
-- What the invariant of the page table says of its pages: crates/glm-cache/src/sequence.rs.
use glmaxx.Base.{
  ℕ, ◌≤◌, ◌≡◌, refl, sym, ◌∙◌, true, List, [], ◌∷◌, Memᴰ, Option, none, some, ltb, ok, arith,
}
use glmaxx.Base.Maps.{find}
use glmaxx.Cache.Sequence.{PhysicalPage, PageTableConfig, SequencePage, Sequence, SequencePageTable}
use glmaxx.Cache.Sequence.Store.{lookup_page}
use glmaxx.Cache.Sequence.Quarantine.{new_table}
use glmaxx.Cache.Sequence.Account.Maps.{occurrences, present, le-summed}
use glmaxx.Cache.Sequence.Account.Step.{references_of, recorded, mark, listed, mentions}
use glmaxx.Cache.Sequence.Account.Pages.{page_eq_refl, at_page, held_at}
use glmaxx.Cache.Sequence.History.{TableCall, run}
use glmaxx.Cache.Sequence.History.Sound.{run-IsSound}

listed-mem : (e : SequencePage) (es : List SequencePage) → Memᴰ e es → 1 ≤ listed e.physical es
unfolding listed mark
listed-mem e [] m = elim m [ ]
listed-mem e (d ∷ es) (Memᴰ.head h) =
    let same = page_eq_refl d.physical in rw h (rw same (omega arith))
listed-mem e (d ∷ es) (Memᴰ.tail h) = omega (arith, listed-mem e es h)

mem-occurrences : (k : ℕ) (js : List ℕ) → Memᴰ k js → 1 ≤ occurrences k js
unfolding occurrences
mem-occurrences k [] m = elim m [ ]
mem-occurrences k (j ∷ js) (Memᴰ.head h) = rw h (ground arith)
mem-occurrences k (j ∷ js) (Memᴰ.tail h) = omega (arith, mem-occurrences k js h)

present-some : (o : Option PhysicalPage) → 1 ≤ references_of o → present o ≡ 1
present-some none h = omega (arith, h)
present-some (some page) h = refl

found_page :
    (o : Option PhysicalPage)
    → 1 ≤ references_of o
    → (page : PhysicalPage) × (o ≡ some page) × (page.references ≡ references_of o)
found_page none h = absurd (omega (arith, h))
found_page (some page) h = (page, refl, refl)

pub none-present : (o : Option PhysicalPage) → present o ≡ 0 → o ≡ none
none-present none h = refl
none-present (some page) h = absurd (omega (arith, h))

module _ (c : PageTableConfig) (s : SequencePageTable) (calls : List TableCall) where
  -- After any calls on a new table, the page of every entry of a sequence's list is found, with as many
  -- references as the sequences have entries for it.
  pub listed-found :
      (id : ℕ) (q : Sequence) (e : SequencePage)
      → new_table c ≡ ok s
      → find id (run s calls).sequences ≡ some q
      → Memᴰ e q.pages
      → (page : PhysicalPage) × (lookup_page (run s calls) e.physical ≡ some page)
        × (page.references ≡ mentions (run s calls) e.physical)
  listed-found id q e made found member =
      let sound = run-IsSound c s calls made in
      let here = listed-mem e q.pages member in
      let among = le-summed (λ r. listed e.physical r.pages) id (run s calls).sequences found in
      let counted : references_of (lookup_page (run s calls) e.physical)
          ≡ mentions (run s calls) e.physical =
        unfold recorded in sound.counted e.physical in
      let listed_once : 1 ≤ references_of (lookup_page (run s calls) e.physical) =
        unfold mentions in omega (arith, here, among, counted) in
      let (page, there, references) = found_page _ listed_once in
      (page, there, references ∙ counted)

  -- After any calls on a new table, a free target page of a rank is below the configured count, is
  -- neither retired nor in use, and no sequence lists it.
  pub free-unused :
      (rank id : ℕ)
      → new_table c ≡ ok s
      → Memᴰ id ((run s calls).free_target rank)
      → (ltb id (run s calls).config.target_pages_per_rank ≡ true)
        × (occurrences id ((run s calls).quarantined_target rank) ≡ 0)
        × (lookup_page (run s calls) (at_page rank id) ≡ none)
        × (mentions (run s calls) (at_page rank id) ≡ 0)
  free-unused rank id made member =
      let sound = run-IsSound c s calls made in
      let p = at_page rank id in
      let there = mem-occurrences id ((run s calls).free_target rank) member in
      let all_of = sym (held_at (run s calls) rank id) ∙ sound.partitioned rank id in
      let gone = none-present (lookup_page (run s calls) p) (ground (arith, all_of, there)) in
      let counted : references_of (lookup_page (run s calls) p) ≡ mentions (run s calls) p =
        unfold recorded in sound.counted p in
      (ground (arith, all_of, there), ground (arith, all_of, there), gone, sym counted ∙ rw gone)
