-- ===== src/Payloads/Laws.antt =====
-- The chunked loop against the whole body and its limit.
use billsons_forms.Models.{fits}
use mathlib.Core.List.{append-nil, append_assoc}
use billsons_forms.Base.{
  Bool-cases, List, Option, Text, [], ap, arith, if◌then◌else◌, inl, inr, leb, length,
  length-append, lit, ltb, none, refl, subst, sym, ℕ, ◌++◌, ◌∙◌, ◌∷◌, ◌≡◌, ◌≤◌,
}
use billsons_forms.Strings.{Unicode}
use billsons_forms.Payloads.{
  BodyResult, body, body_error, content_length_error, read_chunks, read_limited_body,
}

-- The whole body.
unfoldable pub concat_chunks : List Text → Text
concat_chunks [] = []
concat_chunks (chunk ∷ chunks) = chunk ++ concat_chunks chunks

-- What the answer should be: the body, or an error where it is longer than the limit.
abbrev pub limited : ℕ → Text → BodyResult
limited limit_bytes whole =
    if leb (length whole) limit_bytes then body whole else body_error 413 (lit "Payload too large.")

read_chunks-limited :
    (limit_bytes : ℕ) (so_far : Text) (chunks : List Text)
    → length so_far ≤ limit_bytes
    → read_chunks limit_bytes so_far chunks ≡ limited limit_bytes (so_far ++ concat_chunks chunks)
unfolding read_chunks concat_chunks
read_chunks-limited limit_bytes so_far [] fits =
    subst (λ t. body so_far ≡ limited limit_bytes t) (sym (append-nil so_far))
      (ground (arith, fits))
read_chunks-limited limit_bytes so_far (chunk ∷ chunks) fits =
    elim (Bool-cases (ltb limit_bytes (length (so_far ++ chunk)))) [
      | inl over ↦ ground (
        arith,
        over,
        length-append so_far chunk,
        length-append so_far (chunk ++ concat_chunks chunks),
        length-append chunk (concat_chunks chunks),
      )
      | inr under ↦ rw under (
          subst (λ t. read_chunks limit_bytes (so_far ++ chunk) chunks ≡ limited limit_bytes t)
            (append_assoc so_far chunk (concat_chunks chunks))
            (read_chunks-limited limit_bytes (so_far ++ chunk) chunks (ground arith)))
    ]

-- A body is accepted exactly where it is no longer than the limit, and then as the chunks put
-- together, however the stream is cut, provided that the Content-Length header makes no error.
pub read_limited_body-limited :
    (u : Unicode) (content_length : Option Text) (chunks : List Text) (limit_bytes : ℕ)
    → content_length_error u content_length limit_bytes ≡ none
    → read_limited_body u content_length chunks limit_bytes ≡ (
        if leb (length (concat_chunks chunks)) limit_bytes
        then body (concat_chunks chunks)
        else body_error 413 (lit "Payload too large."))
unfolding read_limited_body
read_limited_body-limited u content_length chunks limit_bytes no_error =
    rw (no_error, read_limited_body) (read_chunks-limited limit_bytes [] chunks (omega arith))

concat_chunks-append :
    (first rest : List Text)
    → concat_chunks (first ++ rest) ≡ concat_chunks first ++ concat_chunks rest
unfolding concat_chunks
concat_chunks-append [] rest = refl
concat_chunks-append (chunk ∷ first) rest =
    ap (λ t. chunk ++ t) (concat_chunks-append first rest)
    ∙ sym (append_assoc chunk (concat_chunks first) (concat_chunks rest))
