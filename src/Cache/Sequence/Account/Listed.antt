-- ===== src/Cache/Sequence/Account/Listed.antt =====
-- The balance under the changes of a sequence's list of pages: crates/glm-cache/src/sequence.rs.
use glmaxx.Base.{ℕ, ◌+◌, ◌≡◌, refl, ap, List, [], ◌∷◌, ◌++◌, none, some, arith}
use glmaxx.Base.Maps.{Map, find, insert, adjust, Ascending, insert_zero-Ascending, adjust-Ascending}
use glmaxx.Cache.Sequence.{PhysicalPageId, SequencePage, Sequence, SequencePageTable}
use glmaxx.Cache.Sequence.Store.{erase, lookup_page}
use glmaxx.Cache.Sequence.Attach.{enter_sequence}
use glmaxx.Cache.Sequence.Append.{set_sequence, get_last?}
use glmaxx.Cache.Sequence.Tentative.{drop_last}
use glmaxx.Cache.Sequence.Account.Maps.{
  summed, summed-insert, summed-adjust, summed-erase, summed-adjust_same, erase-Ascending,
}
use glmaxx.Cache.Sequence.Account.Step.{recorded, mark, listed, mentions, held, Step, nothing}

pub listed-push :
    (p : PhysicalPageId) (es : List SequencePage) (e : SequencePage)
    → listed p (es ++ (e ∷ [])) ≡ listed p es + mark e.physical p
unfolding listed
listed-push p [] e = omega arith
listed-push p (d ∷ es) e = omega (arith, listed-push p es e)

pub listed-drop_last :
    (p : PhysicalPageId) (es : List SequencePage) {e : SequencePage}
    → get_last? es ≡ some e
    → listed p (drop_last es) + mark e.physical p ≡ listed p es
unfolding listed
listed-drop_last p [] h = cc
listed-drop_last p (d ∷ []) {e} h = let same : d ≡ e = cc in rw same (omega arith)
listed-drop_last p (d ∷ c ∷ es) h = omega (arith, listed-drop_last p (c ∷ es) h)

-- A table whose sequences alone are replaced.
replace-Step :
    {gained lost : PhysicalPageId → ℕ} (s : SequencePageTable) (sequences : Map Sequence)
    → ((p : PhysicalPageId)
        → mentions s p + lost p ≡ summed (λ q. listed p q.pages) sequences + gained p)
    → (Ascending 0 s.sequences → Ascending 0 sequences)
    → Step gained lost s (record s { sequences = sequences })
replace-Step {gained} {lost} s sequences change order = record {
  same_config = refl;
  same_generation = refl;
  conserved = λ rank id. unfold held in refl;
  not_freed = λ rank id. omega arith;
  still_retired = λ rank id. omega arith;
  balance = λ p. replaced p (change p);
  live = λ h p. unfold recorded lookup_page in h p;
  ordered = order;
}
  where
    replaced :
        (p : PhysicalPageId)
        → mentions s p + lost p ≡ summed (λ q. listed p q.pages) sequences + gained p
        → recorded (record s { sequences = sequences }) p + mentions s p + lost p
          ≡ recorded s p + mentions (record s { sequences = sequences }) p + gained p
    replaced p e =
        let r : recorded (record s { sequences = sequences }) p ≡ recorded s p =
          unfold recorded lookup_page in refl in
        let m : mentions (record s { sequences = sequences }) p
            ≡ summed (λ q. listed p q.pages) sequences =
          unfold mentions in refl in
        omega (arith, r, m, e)

module _ (s : SequencePageTable) (id : ℕ) where
  pub enter-Step :
      (q : Sequence)
      → find id s.sequences ≡ none
      → Step nothing (λ p. listed p q.pages) s (enter_sequence id q s)
  unfolding enter_sequence
  enter-Step q new =
      replace-Step s (insert id q s.sequences)
        (λ p.
          let e = summed-insert (λ r. listed p r.pages) id q s.sequences new in
          unfold mentions in omega arith)
        (insert_zero-Ascending id q s.sequences)

  pub set_sequence-Step :
      (f : Sequence → Sequence) (q : Sequence)
      → find id s.sequences ≡ some q
      → Step (λ p. listed p q.pages) (λ p. listed p (f q).pages) s (set_sequence id f s)
  unfolding set_sequence
  set_sequence-Step f q found =
      replace-Step s (adjust id f s.sequences)
        (λ p.
          let e = summed-adjust (λ r. listed p r.pages) id f s.sequences found in
          unfold mentions in omega arith)
        (adjust-Ascending 0 id f s.sequences)

  -- A change of a sequence that keeps its pages.
  pub same_pages-Step :
      (f : Sequence → Sequence)
      → ((q : Sequence) → (f q).pages ≡ q.pages)
      → Step nothing nothing s (set_sequence id f s)
  unfolding set_sequence
  same_pages-Step f same =
      replace-Step s (adjust id f s.sequences)
        (λ p.
          let e =
            summed-adjust_same (λ r. listed p r.pages) id f s.sequences
              (λ q. ap (listed p) (same q)) in
          unfold mentions in omega arith)
        (adjust-Ascending 0 id f s.sequences)

  pub erase-Step :
      (q : Sequence)
      → Ascending 0 s.sequences
      → find id s.sequences ≡ some q
      → Step (λ p. listed p q.pages) nothing s (record s { sequences = erase id s.sequences })
  erase-Step q order found =
      replace-Step s (erase id s.sequences)
        (λ p.
          let e = summed-erase (λ r. listed p r.pages) id 0 s.sequences order found in
          unfold mentions in omega arith)
        (erase-Ascending id 0 s.sequences)
