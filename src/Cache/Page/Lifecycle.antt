-- ===== src/Cache/Page/Lifecycle.antt =====
-- What a page goes through (crates/glm-cache/src/page.rs).
use glmaxx.Base.{
  ℕ, ◌≡◌, ◌↔◌, refl, inl, inr, Bool, true, false, Option, none, some, List, [], ◌∷◌, Memᴰ, ok,
  arith, sym, Bool-cases, >>=-eq_ok, subst,
}
use glmaxx.Cache.Page.{
  PageState, free, hbm_mutable, hbm_tentative, hbm_sealed, invalid, legal, transition,
  run_transitions, is_tiered, PageAttachments, validate_draft, validate_attachments,
}

transition-legal : (s t u : PageState) → transition s t ≡ ok u → (legal s t ≡ true) × (u ≡ t)
unfolding transition
transition-legal s t u h = ground arith

run_step :
    (s next t : PageState) (rest : List PageState)
    → run_transitions s (next ∷ rest) ≡ ok t
    → (legal s next ≡ true) × (run_transitions next rest ≡ ok t)
unfolding run_transitions
run_step s next t rest h =
    let (u, moved, r) = >>=-eq_ok (transition s next) (λ t'. run_transitions t' rest) h in
    let (allowed, same) = transition-legal s next u moved in
    (allowed, subst (λ x. run_transitions x rest ≡ ok t) same r)

run_end : (s t : PageState) → run_transitions s [] ≡ ok t → s ≡ t
unfolding run_transitions
run_end s t h = cc

-- A page enters the tiers from the sealed state alone.
leaves-sealed :
    (s t : PageState) → legal s t ≡ true → is_tiered s ≡ false → is_tiered t ≡ true → s ≡ hbm_sealed
unfolding legal is_tiered
leaves-sealed hbm_sealed t h k l = refl
leaves-sealed _ t h k l = ground arith

leaves-invalid : (s : PageState) → legal s free ≡ true → s ≡ invalid
unfolding legal
leaves-invalid _ h = ground arith

-- A page that was outside the tiers and comes, through accepted transitions, into a state of the
-- tiers was sealed in HBM: it is in that state at first or among the states it goes through.
pub tiered-sealed :
    (s t : PageState) (history : List PageState)
    → run_transitions s history ≡ ok t
    → is_tiered s ≡ false
    → is_tiered t ≡ true
    → Memᴰ hbm_sealed (s ∷ history)
tiered-sealed s t [] h k l = let same = run_end s t h in cc
tiered-sealed s t (next ∷ rest) h k l =
    let (allowed, after) = run_step s next t rest h in
    elim (Bool-cases (is_tiered next)) [
      | inl entered ↦ Memᴰ.head (sym (leaves-sealed s next allowed k entered))
      | inr outside ↦ Memᴰ.tail (tiered-sealed next t rest after outside l)
    ]

-- A page that is used again, free after at least one accepted transition, was invalidated: it is
-- invalid at first or among the states it goes through.
pub reuse-invalid :
    (s next : PageState) (rest : List PageState)
    → run_transitions s (next ∷ rest) ≡ ok free
    → Memᴰ invalid (s ∷ next ∷ rest)
reuse-invalid s next [] h =
    let (allowed, after) = run_step s next free [] h in
    Memᴰ.head
      (sym (leaves-invalid s (subst (λ x. legal s x ≡ true) (run_end next free after) allowed)))
reuse-invalid s next (later ∷ rest) h =
    Memᴰ.tail (reuse-invalid next later rest (run_step s next free (later ∷ rest) h).1)

-- From every state, accepted transitions bring a page to the free state and to the sealed state.
pub recycles :
    (s : PageState)
    → ((history : List PageState) × (run_transitions s history ≡ ok free))
      × ((history : List PageState) × (run_transitions s history ≡ ok hbm_sealed))
unfolding run_transitions transition legal
recycles free = (([], refl), (hbm_mutable ∷ hbm_sealed ∷ [], refl))
recycles hbm_mutable = ((invalid ∷ free ∷ [], refl), (hbm_sealed ∷ [], refl))
recycles hbm_sealed = ((invalid ∷ free ∷ [], refl), ([], refl))
recycles invalid = ((free ∷ [], refl), (free ∷ hbm_mutable ∷ hbm_sealed ∷ [], refl))
recycles hbm_tentative = ((invalid ∷ free ∷ [], refl), (hbm_sealed ∷ [], refl))
recycles _ = ((invalid ∷ free ∷ [], refl), (invalid ∷ free ∷ hbm_mutable ∷ hbm_sealed ∷ [], refl))

-- The draft's generations that go with a target's: both its own, or none of them without MTP.
abbrev pub IsDraftOf : ℕ → Bool → Option ℕ → Option ℕ → Type 0
IsDraftOf target mtp (some kv) (some indexer) = (kv ≡ target) × (indexer ≡ target)
IsDraftOf target mtp none none = mtp ≡ false
IsDraftOf target mtp _ _ = ⊥

draft_accepts :
    (mtp : Bool) (target : ℕ) (kv indexer : Option ℕ)
    → validate_draft mtp target kv indexer ≡ ok tt
    → IsDraftOf target mtp kv indexer
unfolding validate_draft
draft_accepts mtp target (some kv) (some indexer) h = ground arith
draft_accepts true target none none h = cc
draft_accepts false target none none h = refl
draft_accepts mtp target (some kv) none h = cc
draft_accepts mtp target none (some indexer) h = cc

draft_accepted :
    (mtp : Bool) (target : ℕ) (kv indexer : Option ℕ)
    → IsDraftOf target mtp kv indexer
    → validate_draft mtp target kv indexer ≡ ok tt
unfolding validate_draft
draft_accepted mtp target (some kv) (some indexer) h = ground arith
draft_accepted true target none none h = cc
draft_accepted false target none none h = refl
draft_accepted mtp target (some kv) none h = absurd h
draft_accepted mtp target none (some indexer) h = absurd h

attachments_parts :
    (a : PageAttachments) (mtp : Bool)
    → validate_attachments a mtp ≡ ok tt
    → (a.target_generation ≡ a.target_indexer_generation)
      × (validate_draft mtp a.target_generation a.draft_kv_generation a.draft_indexer_generation
          ≡ ok tt)
unfolding validate_attachments
attachments_parts a mtp h = ground arith

attachments_whole :
    (a : PageAttachments) (mtp : Bool)
    → a.target_generation ≡ a.target_indexer_generation
    → validate_draft mtp a.target_generation a.draft_kv_generation a.draft_indexer_generation
      ≡ ok tt
    → validate_attachments a mtp ≡ ok tt
unfolding validate_attachments
attachments_whole a mtp h k = ground arith

-- Attachments are accepted exactly if the target's two generations agree, and the draft has both of
-- its generations, equal to the target's, or, when MTP is off, none.
pub validate_attachments_accepts :
    (a : PageAttachments) (mtp : Bool)
    → validate_attachments a mtp ≡ ok tt
      ↔ (a.target_generation ≡ a.target_indexer_generation)
        × IsDraftOf a.target_generation mtp a.draft_kv_generation a.draft_indexer_generation
validate_attachments_accepts a mtp = (
  λ h.
      let (same, draft) = attachments_parts a mtp h in
      (
        same,
        draft_accepts mtp a.target_generation a.draft_kv_generation a.draft_indexer_generation
            draft,
      ),
  λ (same, d).
      attachments_whole a mtp same
        (draft_accepted mtp a.target_generation a.draft_kv_generation a.draft_indexer_generation d),
)
