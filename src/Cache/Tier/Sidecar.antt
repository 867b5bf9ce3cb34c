-- ===== src/Cache/Tier/Sidecar.antt =====
-- The payload of a draft sidecar: crates/glm-cache/src/tier.rs, `encode_draft_sidecar_payload` and
-- `decode_draft_sidecar_payload`.
use glmaxx.Base.{
  ℕ, zero, suc, ◌*◌, ◌≡◌, refl, ap, ◌∙◌, inl, inr, ◌||◌, not, List, [], ◌∷◌, ◌++◌, length, take,
  ◌==◌, if◌then◌else◌, Result, ok, err, Bool-cases, arith,
}
use glmaxx.Base.Ensures.{Ensures, guard-Ensures, Ensures-eq_ok}
use glmaxx.Base.Slices.{
  drop, take-drop, length-take, length-drop, take-append, drop-append, length-append,
}
use glmaxx.Cache.Budget.{page_tokens, kv_record_bytes, indexer_record_bytes}
use glmaxx.Cache.Tier.{
  TierError, pieces_error, draft_kv_page_bytes, draft_indexer_page_bytes, draft_sidecar_page_bytes,
  draft_committed_record_bytes,
}

-- The record of each token from the two lists in turn, for so many tokens.
unfoldable pub interleave : ℕ → List ℕ → List ℕ → List ℕ
interleave zero kv indexer = []
interleave (suc n) kv indexer =
    (take kv_record_bytes kv ++ take indexer_record_bytes indexer)
    ++ interleave n (drop kv_record_bytes kv) (drop indexer_record_bytes indexer)

-- `encode_draft_sidecar_payload`.
unfoldable pub encode_draft_sidecar_payload : List ℕ → List ℕ → Result TierError (List ℕ)
encode_draft_sidecar_payload kv indexer =
    if not (length kv == draft_kv_page_bytes) || not (length indexer == draft_indexer_page_bytes)
    then err pieces_error
    else ok (interleave page_tokens kv indexer)

-- The two parts of the record of one token, put before those of the others.
abbrev pub split_record : List ℕ → List ℕ × List ℕ → List ℕ × List ℕ
split_record token (kv, indexer) =
    (take kv_record_bytes token ++ kv, drop kv_record_bytes token ++ indexer)

-- The loop over the records of so many tokens.
unfoldable pub separate : ℕ → List ℕ → List ℕ × List ℕ
separate zero payload = ([], [])
separate (suc n) payload =
    split_record (take draft_committed_record_bytes payload)
      (separate n (drop draft_committed_record_bytes payload))

-- `decode_draft_sidecar_payload`.
unfoldable pub decode_draft_sidecar_payload : List ℕ → Result TierError (List ℕ × List ℕ)
decode_draft_sidecar_payload payload =
    if not (length payload == draft_sidecar_page_bytes)
    then err pieces_error
    else ok (separate page_tokens payload)

length-interleave :
    (n : ℕ) (kv indexer : List ℕ)
    → length kv ≡ n * kv_record_bytes
    → length indexer ≡ n * indexer_record_bytes
    → length (interleave n kv indexer) ≡ n * draft_committed_record_bytes
unfolding interleave
length-interleave zero kv indexer h k = refl
length-interleave (suc n) kv indexer h k =
    let a = length-take kv_record_bytes kv (omega (arith, h)) in
    let b = length-take indexer_record_bytes indexer (omega (arith, k)) in
    let c = length-append (take kv_record_bytes kv) (take indexer_record_bytes indexer) in
    let d =
      length-append (take kv_record_bytes kv ++ take indexer_record_bytes indexer)
        (interleave n (drop kv_record_bytes kv) (drop indexer_record_bytes indexer)) in
    let rest =
      length-interleave n (drop kv_record_bytes kv) (drop indexer_record_bytes indexer)
        (omega (arith, h, length-drop kv_record_bytes kv))
        (omega (arith, k, length-drop indexer_record_bytes indexer)) in
    omega (arith, a, b, c, d, rest)

separate-interleave :
    (n : ℕ) (kv indexer : List ℕ)
    → length kv ≡ n * kv_record_bytes
    → length indexer ≡ n * indexer_record_bytes
    → separate n (interleave n kv indexer) ≡ (kv, indexer)
unfolding separate interleave
separate-interleave zero [] [] h k = refl
separate-interleave zero (b ∷ kv) indexer h k = absurd (omega (arith, h))
separate-interleave zero [] (b ∷ indexer) h k = absurd (omega (arith, k))
separate-interleave (suc n) kv indexer h k =
    let first = take kv_record_bytes kv in
    let second = take indexer_record_bytes indexer in
    let a = length-take kv_record_bytes kv (omega (arith, h)) in
    let b = length-take indexer_record_bytes indexer (omega (arith, k)) in
    let size : length (first ++ second) ≡ draft_committed_record_bytes =
      omega (arith, a, b, length-append first second) in
    let rest =
      separate-interleave n (drop kv_record_bytes kv) (drop indexer_record_bytes indexer)
        (omega (arith, h, length-drop kv_record_bytes kv))
        (omega (arith, k, length-drop indexer_record_bytes indexer)) in
    let others = interleave n (drop kv_record_bytes kv) (drop indexer_record_bytes indexer) in
    let here = take-append draft_committed_record_bytes (first ++ second) others size in
    let after = drop-append draft_committed_record_bytes (first ++ second) others size in
    let one = take-append kv_record_bytes first second a in
    let two = drop-append kv_record_bytes first second a in
    (λ i. split_record (here i) (separate n (after i)))
    ∙ ap (split_record (first ++ second)) rest
    ∙ (λ i. (one i ++ drop kv_record_bytes kv, two i ++ drop indexer_record_bytes indexer))
    ∙ (λ i. (take-drop kv_record_bytes kv i, take-drop indexer_record_bytes indexer i))

decoded :
    (kv indexer : List ℕ)
    → length (interleave page_tokens kv indexer) ≡ draft_sidecar_page_bytes
    → separate page_tokens (interleave page_tokens kv indexer) ≡ (kv, indexer)
    → decode_draft_sidecar_payload (interleave page_tokens kv indexer) ≡ ok (kv, indexer)
unfolding decode_draft_sidecar_payload
decoded kv indexer size parts =
    elim (Bool-cases (length (interleave page_tokens kv indexer) == draft_sidecar_page_bytes)) [
      | inl same ↦ rw same (ap ok parts)
      | inr other ↦ absurd (ground (arith, other, size))
    ]

-- Where the draft's two parts are encoded with success, the payload decodes to them.
pub decode-encode_draft_sidecar_payload :
    (kv indexer payload : List ℕ)
    → encode_draft_sidecar_payload kv indexer ≡ ok payload
    → decode_draft_sidecar_payload payload ≡ ok (kv, indexer)
unfolding encode_draft_sidecar_payload decode_draft_sidecar_payload
decode-encode_draft_sidecar_payload kv indexer payload encoded =
    Ensures-eq_ok {P = λ p. decode_draft_sidecar_payload p ≡ ok (kv, indexer)}
      (guard-Ensures
        (not (length kv == draft_kv_page_bytes) || not (length indexer == draft_indexer_page_bytes))
        pieces_error
        (λ sizes.
          let h : length kv ≡ page_tokens * kv_record_bytes = ground (arith, sizes) in
          let k : length indexer ≡ page_tokens * indexer_record_bytes = ground (arith, sizes) in
          Ensures.returned (
            decoded kv indexer (length-interleave page_tokens kv indexer h k)
              (separate-interleave page_tokens kv indexer h k))))
      encoded
