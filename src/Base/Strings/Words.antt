-- ===== src/Base/Strings/Words.antt =====
-- Splitting a text into words and joining them: what strip, split and join keep.
use Prim.Native.Char.{Char}
use Prim.Native.String.{String}
use mathlib.Core.Path.{◌≡◌, refl, sym, ap, ◌∙◌}
use mathlib.Core.Logic.{◌⊎◌, inl, inr}
use mathlib.Core.Bool.{Bool, true, false, not, ◌&&◌}
use mathlib.Core.List.{List, [], ◌∷◌}
use native.Mathlib.Omega.{arith}
use foundora_ai.Base.Tests.{Bool-cases}
use foundora_ai.Base.Lists.{All}
use foundora_ai.Base.Strings.{
  is_space, is_empty, lstrip, rstrip, strip, append, starts_word, glue, words, join, kept,
}

-- Spaces in front of a text and behind it are in no word.
words-lstrip : (s : String) → words (lstrip s) ≡ words s
unfolding lstrip words
words-lstrip String.[] = refl
words-lstrip (String.◌∷◌ c s) = elim (Bool-cases (is_space c)) [
  | inl t ↦ rw t (words-lstrip s)
  | inr f ↦ rw f (rw f refl)
]

-- A text that is not blank begins as it does without the spaces behind it.
starts-kept :
    (c : Char) (s r : String)
    → (kept c r ≡ String.[]) ⊎ (starts_word (kept c r) ≡ starts_word (String.◌∷◌ c s))
starts-kept c s String.[] = elim (Bool-cases (is_space c)) [
  | inl t ↦ rw t (inl refl)
  | inr f ↦ rw f (rw f (inr refl))
]
starts-kept c s (String.◌∷◌ d r) = inr refl

starts-rstrip : (s : String) → (rstrip s ≡ String.[]) ⊎ (starts_word (rstrip s) ≡ starts_word s)
unfolding rstrip
starts-rstrip String.[] = inl refl
starts-rstrip (String.◌∷◌ c s) = starts-kept c s (rstrip s)

words-kept :
    (c : Char) (s r : String)
    → (r ≡ String.[]) ⊎ (starts_word r ≡ starts_word s)
    → words r ≡ words s
    → words (kept c r) ≡ words (String.◌∷◌ c s)
unfolding words
words-kept c s String.[] starts same = elim (Bool-cases (is_space c)) [
  | inl t ↦ rw (t, sym same) refl
  | inr f ↦ rw (f, sym same) (rw f refl)
]
words-kept c s (String.◌∷◌ d r) (inl e) same =
    let no : false ≡ true = ap is_empty e in absurd (ground arith)
words-kept c s (String.◌∷◌ d r) (inr e) same = elim (Bool-cases (is_space c)) [
  | inl t ↦ rw t same
  | inr f ↦ rw f (ap (λ b. glue c b (words (String.◌∷◌ d r))) e ∙ ap (glue c (starts_word s)) same)
]

words-rstrip : (s : String) → words (rstrip s) ≡ words s
unfolding rstrip
words-rstrip String.[] = refl
words-rstrip (String.◌∷◌ c s) = words-kept c s (rstrip s) (starts-rstrip s) (words-rstrip s)

pub words-strip : (s : String) → words (strip s) ≡ words s
unfolding strip
words-strip s = words-rstrip (lstrip s) ∙ words-lstrip s

-- A text without spaces.
no_space : String → Bool
no_space String.[] = true
no_space (String.◌∷◌ c s) = not (is_space c) && no_space s

abbrev IsWord : String → Type 0
IsWord w = (is_empty w ≡ false) × (no_space w ≡ true)

IsWord-glue :
    (c : Char) (b : Bool) (ws : List String)
    → is_space c ≡ false
    → All IsWord ws
    → All IsWord (glue c b ws)
unfolding no_space
IsWord-glue c b [] f h = ((refl, rw f refl), tt)
IsWord-glue c true (w ∷ ws) f h = ((refl, rw f h.0.1), h.1)
IsWord-glue c false (w ∷ ws) f h = ((refl, rw f refl), h)

words-IsWord : (s : String) → All IsWord (words s)
unfolding words
words-IsWord String.[] = tt
words-IsWord (String.◌∷◌ c s) = elim (Bool-cases (is_space c)) [
  | inl t ↦ rw t (words-IsWord s)
  | inr f ↦ rw f (IsWord-glue c (starts_word s) (words s) f (words-IsWord s))
]

-- A word in front of a text that does not go on with one.
words-append : (w t : String) → IsWord w → starts_word t ≡ false → words (append w t) ≡ w ∷ words t
unfolding words append no_space
words-append String.[] t h e = absurd (ground arith)
words-append (String.◌∷◌ c String.[]) t h e =
    let f : is_space c ≡ false = ground arith in rw (f, e) (glue-false c (words t))
  where
    glue-false : (d : Char) (ws : List String) → glue d false ws ≡ String.◌∷◌ d String.[] ∷ ws
    glue-false d [] = refl
    glue-false d (x ∷ xs) = refl
words-append (String.◌∷◌ c (String.◌∷◌ d w)) t h e =
    let f : is_space c ≡ false = ground arith in
    let g : is_space d ≡ false = ground arith in
    let rest = words-append (String.◌∷◌ d w) t (refl, ground arith) e in
    rw f (ap (λ b. glue c b (words (String.◌∷◌ d (append w t)))) (ap not g) ∙ ap (glue c true) rest)

append_nil : (s : String) → append s String.[] ≡ s
unfolding append
append_nil String.[] = refl
append_nil (String.◌∷◌ c s) = ap (String.◌∷◌ c) (append_nil s)

words-join : (ws : List String) → All IsWord ws → words (join " " ws) ≡ ws
unfolding join words append is_space
words-join [] h = refl
words-join (w ∷ []) h = ap words (sym (append_nil w)) ∙ words-append w String.[] h.0 refl
words-join (w ∷ v ∷ ws) h =
    words-append w (String.◌∷◌ " " (join " " (v ∷ ws))) h.0 refl
    ∙ ap (λ xs. w ∷ xs) (words-join (v ∷ ws) h.1)

-- Joining the words of a text and splitting it again gives the words back.
pub words-join-words : (s : String) → words (join " " (words s)) ≡ words s
words-join-words s = words-join (words s) (words-IsWord s)
