-- ===== src/Memory/Text/Clean.antt =====
-- What the normalisation of texts in memory/service.py keeps.
use foundora_ai.Base.{
  ℕ, ◌≤◌, ◌≡◌, inl, inr, refl, ap, subst, ◌∙◌, arith, String, false, ◌||◌, ok, ltb, Bool-cases,
  is_empty, text_length, strip, words, join,
}
use foundora_ai.Base.Strings.Words.{words-strip, words-join-words}
use foundora_ai.Memory.Text.{Libraries, clean, canonical_key}

normalized_again :
    (value : String) → join " " (words (strip (join " " (words value)))) ≡ join " " (words value)
normalized_again value =
    ap (join " ") (words-strip (join " " (words value)) ∙ words-join-words value)

-- A text that `_clean` accepts comes back not empty and within the maximum, has the words of the
-- argument, is accepted as it is when it is cleaned again, and has the argument's canonical key.
pub clean_again :
    (lib : Libraries) (value label : String) (maximum : ℕ)
    (memory_type status content cleaned : String)
    → clean value maximum label ≡ ok cleaned
    → (is_empty cleaned ≡ false)
      × (text_length cleaned ≤ maximum)
      × (words cleaned ≡ words value)
      × (clean cleaned maximum label ≡ ok cleaned)
      × (canonical_key lib memory_type status cleaned content
          ≡ canonical_key lib memory_type status value content)
unfolding clean canonical_key
clean_again lib value label maximum memory_type status content cleaned h =
    let t = join " " (words (strip value)) in
    elim (Bool-cases (is_empty t || ltb maximum (text_length t))) [
      | inl bad ↦ absurd (ground arith)
      | inr good ↦
          let same : t ≡ cleaned = ground arith in
          let split : words t ≡ words value = words-join-words (strip value) ∙ words-strip value in
          subst
            (λ c.
              (is_empty c ≡ false)
              × (text_length c ≤ maximum)
              × (words c ≡ words value)
              × (clean c maximum label ≡ ok c)
              × (canonical_key lib memory_type status c content
                  ≡ canonical_key lib memory_type status value content))
            same
            (
              ground arith,
              ground arith,
              split,
              rw (normalized_again (strip value)) (rw good refl),
              rw (split, canonical_key) refl,
            )
    ]
