-- ===== src/Cache/Sequence/Extends.antt =====
-- A sequence whose list of pages has grown at its end, and the pages popped from it:
-- crates/glm-cache/src/sequence.rs.
use glmaxx.Base.{
  ℕ, zero, suc, ◌+◌, ◌-◌, ◌≤◌, ◌<◌, ◌≡◌, refl, ap, sym, ◌∙◌, subst, Bool, true, false, List, [],
  ◌∷◌, ◌++◌, length, take, some, ◌==◌, ==-refl, or_fail, checked_add, u8_max, arith,
}
use glmaxx.Base.Ensures.{Ensures, bind-Ensures, if-Ensures, Ensures-mono, any-Ensures}
use glmaxx.Base.Maps.{find, find-adjust}
use glmaxx.Cache.Sequence.{
  PhysicalPageId, PhysicalPage, SequencePage, TentativeTail, Sequence, SequencePageTable,
  sequence_error, invariant_error, overflow,
}
use glmaxx.Cache.Sequence.Store.{lookup_page, put_page}
use glmaxx.Cache.Sequence.Append.{get_last?, set_sequence, push_page, with_tokens}
use glmaxx.Cache.Sequence.Tentative.{
  needs_page, ensure_page, make_tentative, reserve_in, reserve_token, reserve_tentative, drop_last,
  pop_page, pop_pages, restore_page_tokens, restore_tail,
}
use glmaxx.Cache.Sequence.Account.Allocate.{allocate_page-Step}
use glmaxx.Cache.Sequence.Account.Release.{release_page-Step}

take_push :
    (k : ℕ) (es : List SequencePage) (e : SequencePage)
    → k ≤ length es
    → take k (es ++ (e ∷ [])) ≡ take k es
take_push zero es e h = refl
take_push (suc k) [] e h = absurd (omega (arith, h))
take_push (suc k) (d ∷ es) e h =
    ap (λ (t : List SequencePage). d ∷ t) (take_push k es e (omega arith))

length_push :
    (es : List SequencePage) (e : SequencePage) → length (es ++ (e ∷ [])) ≡ suc (length es)
length_push [] e = refl
length_push (d ∷ es) e = ap suc (length_push es e)

take-drop_last :
    (k : ℕ) (es : List SequencePage) → k < length es → take k (drop_last es) ≡ take k es
take-drop_last zero es h = refl
take-drop_last (suc k) [] h = refl
take-drop_last (suc k) (e ∷ []) h = absurd (omega (arith, h))
take-drop_last (suc k) (e ∷ d ∷ es) h =
    ap (λ (t : List SequencePage). e ∷ t) (take-drop_last k (d ∷ es) (omega arith))

length-drop_last : (es : List SequencePage) → length (drop_last es) ≡ length es - 1
length-drop_last [] = refl
length-drop_last (e ∷ []) = refl
length-drop_last (e ∷ d ∷ es) = omega (arith, length-drop_last (d ∷ es))

pub take_all : (es : List SequencePage) → take (length es) es ≡ es
take_all [] = refl
take_all (e ∷ es) = ap (λ (t : List SequencePage). e ∷ t) (take_all es)

pub find-set_sequence :
    (s : SequencePageTable) (id : ℕ) (f : Sequence → Sequence) {q : Sequence}
    → find id s.sequences ≡ some q
    → find id (set_sequence id f s).sequences ≡ some (f q)
unfolding set_sequence
find-set_sequence s id f found = rw (find-adjust id id f s.sequences, ==-refl id, found)

-- The sequence has the given pages first, of a number of pages as stated, and otherwise what it had.
pub record Extends (id : ℕ) (q : Sequence) (P : ℕ → Type 0) (s : SequencePageTable) : Type 0 where
  pub now : Sequence
  pub there : find id s.sequences ≡ some now
  pub same_mtp : now.mtp ≡ q.mtp
  pub same_tokens : now.committed_tokens ≡ q.committed_tokens
  pub same_tentative : now.tentative ≡ q.tentative
  pub first : take (length q.pages) now.pages ≡ q.pages
  pub long : P (length now.pages)

module _ (id : ℕ) (q : Sequence) where
  -- It has at least the pages that it had.
  abbrev pub Grown : ℕ → Type 0
  Grown n = length q.pages ≤ n

  pub Extends-sequences :
      {P : ℕ → Type 0} (s t : SequencePageTable)
      → t.sequences ≡ s.sequences
      → Extends id q P s
      → Extends id q P t
  Extends-sequences s t same x = record {
    now = x.now;
    there = ap (find id) same ∙ x.there;
    same_mtp = x.same_mtp;
    same_tokens = x.same_tokens;
    same_tentative = x.same_tentative;
    first = x.first;
    long = x.long;
  }

  pub put_page-Extends :
      {P : ℕ → Type 0} (s : SequencePageTable) (p : PhysicalPageId) (page : PhysicalPage)
      → Extends id q P s
      → Extends id q P (put_page p page s)
  unfolding put_page
  put_page-Extends s p page x = Extends-sequences s (put_page p page s) refl x

  pub Extends-push :
      {P Q : ℕ → Type 0} (s : SequencePageTable) (e : SequencePage)
      → (x : Extends id q P s) → length q.pages ≤ length x.now.pages
      → Q (suc (length x.now.pages))
      → Extends id q Q (set_sequence id (push_page e) s)
  Extends-push {Q = Q} s e x fits pushed = record {
    now = push_page e x.now;
    there = find-set_sequence s id (push_page e) x.there;
    same_mtp = x.same_mtp;
    same_tokens = x.same_tokens;
    same_tentative = x.same_tentative;
    first = take_push (length q.pages) x.now.pages e fits ∙ x.first;
    long = subst Q (sym (length_push x.now.pages e)) pushed;
  }

  ensure_page-Extends :
      (s : SequencePageTable) (r : Sequence) (needed : Bool)
      → Extends id q Grown s
      → Ensures (Extends id q Grown) (ensure_page s id r needed)
  unfolding ensure_page
  ensure_page-Extends s r false x = Ensures.returned x
  ensure_page-Extends s r true x =
      bind-Ensures (allocate_page-Step s (length r.pages) r.mtp)
        (λ (t, p) (step, sequences, new, at_p, once).
          let y = Extends-sequences s t sequences x in
          let e : SequencePage = record { ordinal = length r.pages; physical = p } in
          Ensures.returned (Extends-push t e y y.long (omega (arith, y.long))))

  reserve_in-Extends :
      (s : SequencePageTable) (e : SequencePage)
      → Extends id q Grown s
      → Ensures (Extends id q Grown) (reserve_in s e)
  unfolding reserve_in
  reserve_in-Extends s e x =
      bind-Ensures (any-Ensures (or_fail (lookup_page s e.physical) invariant_error)) (λ page h.
        bind-Ensures (any-Ensures (make_tentative page)) (λ moved k.
          bind-Ensures (any-Ensures (or_fail (checked_add u8_max moved.valid_tokens 1) overflow))
            (λ tokens l.
              Ensures.returned
                (put_page-Extends s e.physical (record moved { valid_tokens = tokens }) x))))

  pub reserve_tentative-Extends :
      (s : SequencePageTable) (count : ℕ)
      → Extends id q Grown s
      → Ensures (Extends id q Grown) (reserve_tentative s id count)
  unfolding reserve_tentative reserve_token
  reserve_tentative-Extends s zero x = Ensures.returned x
  reserve_tentative-Extends s (suc n) x =
      bind-Ensures
        (bind-Ensures (any-Ensures (or_fail (find id s.sequences) sequence_error)) (λ r h.
          bind-Ensures (any-Ensures (needs_page s (get_last? r.pages))) (λ needed k.
            bind-Ensures (ensure_page-Extends s r needed x) (λ ensured extended.
              bind-Ensures (any-Ensures (or_fail (find id ensured.sequences) sequence_error))
                (λ u l.
                  bind-Ensures (any-Ensures (or_fail (get_last? u.pages) invariant_error))
                    (λ e m. reserve_in-Extends ensured e extended))))))
        (λ reserved extended. reserve_tentative-Extends reserved n extended)

  -- It has so many pages more than it had.
  abbrev pub More : ℕ → ℕ → Type 0
  More n m = m ≡ n + length q.pages

  drop_last-Extends :
      (s : SequencePageTable) (n : ℕ)
      → Extends id q (More (suc n)) s
      → Extends id q (More n) (set_sequence id (λ r. record r { pages = drop_last r.pages }) s)
  drop_last-Extends s n x = record {
    now = record x.now { pages = drop_last x.now.pages };
    there = find-set_sequence s id (λ r. record r { pages = drop_last r.pages }) x.there;
    same_mtp = x.same_mtp;
    same_tokens = x.same_tokens;
    same_tentative = x.same_tentative;
    first = take-drop_last (length q.pages) x.now.pages (omega (arith, x.long)) ∙ x.first;
    long = omega (arith, x.long, length-drop_last x.now.pages);
  }

  pub pop_pages-Extends :
      (s : SequencePageTable) (n : ℕ)
      → Extends id q (More n) s
      → Ensures (Extends id q (More 0)) (pop_pages s id n)
  unfolding pop_pages pop_page
  pop_pages-Extends s zero x = Ensures.returned x
  pop_pages-Extends s (suc n) x =
      bind-Ensures
        (bind-Ensures (any-Ensures (or_fail (find id s.sequences) sequence_error)) (λ r h.
          bind-Ensures (any-Ensures (or_fail (get_last? r.pages) invariant_error)) (λ e k.
            let popped = set_sequence id (λ u. record u { pages = drop_last u.pages }) s in
            Ensures-mono (release_page-Step popped e.physical) (λ t (step, sequences).
              Extends-sequences popped t sequences (drop_last-Extends s n x)))))
        (λ t popped. pop_pages-Extends t n popped)

  pub restore_tail-Extends :
      (s : SequencePageTable) (tail : TentativeTail)
      → Extends id q (More 0) s
      → Ensures (Extends id q (More 0)) (restore_tail s id tail)
  unfolding restore_tail
  restore_tail-Extends s tail x =
      if-Ensures (tail.original_page_count == 0) (λ h. Ensures.returned x)
        (λ h. bind-Ensures (any-Ensures (or_fail (find id s.sequences) sequence_error)) (λ r k.
          bind-Ensures (any-Ensures (or_fail (get_last? r.pages) invariant_error)) (λ e l.
            bind-Ensures (any-Ensures (or_fail (lookup_page s e.physical) invariant_error))
              (λ page m.
                bind-Ensures (any-Ensures (restore_page_tokens page tail.original_tail_tokens))
                  (λ restored o. Ensures.returned (put_page-Extends s e.physical restored x))))))

  -- What a rollback leaves, of a sequence that had no tentative tail.
  pub restored-Extends :
      (s : SequencePageTable)
      → Extends id q (More 0) s
      → find id (set_sequence id (with_tokens q.committed_tokens) s).sequences ≡ some q
  restored-Extends s x =
      let count : length x.now.pages ≡ length q.pages = omega (arith, x.long) in
      let pages = sym (take_all x.now.pages) ∙ ap (λ (k : ℕ). take k x.now.pages) count ∙ x.first in
      find-set_sequence s id (with_tokens q.committed_tokens) x.there ∙ λ i. some (record {
        mtp = x.same_mtp i;
        committed_tokens = q.committed_tokens;
        pages = pages i;
        tentative = x.same_tentative i;
      })
