-- ===== src/Base/Strings.antt =====
-- Python's methods of `str` that the services call, on the characters of a text.
pub mod Words
use Prim.Native.Char.{Char, code}
use Prim.Native.Nat.{ℕ, zero, suc, ◌/◌, ◌%◌}
use Prim.Native.String.{String, count, char_at}
use mathlib.Core.Bool.{Bool, true, false, not, ◌||◌, ◌&&◌}
use mathlib.Core.List.{List, [], ◌∷◌, ◌++◌}
use foundora_ai.Base.Tests.{nat_beq, leb, if◌then◌else◌}

-- `str.isspace` of one character.
unfoldable pub is_space : Char → Bool
is_space c =
    let n = code c in
    (leb 9 n && leb n 13)
    || ((leb 28 n && leb n 32)
        || (nat_beq n 133
            || (nat_beq n 160
                || (nat_beq n 5760
                    || ((leb 8192 n && leb n 8202)
                        || (nat_beq n 8232
                            || (nat_beq n 8233
                                || (nat_beq n 8239 || (nat_beq n 8287 || nat_beq n 12288)))))))))

-- `len(value)`
abbrev pub text_length : String → ℕ
text_length s = count s

-- `not value`
abbrev pub is_empty : String → Bool
is_empty String.[] = true
is_empty (String.◌∷◌ c s) = false

unfoldable pub lstrip : String → String
lstrip String.[] = String.[]
lstrip (String.◌∷◌ c s) = let rest = lstrip s in if is_space c then rest else String.◌∷◌ c s

abbrev pub kept : Char → String → String
kept c String.[] = if is_space c then String.[] else String.◌∷◌ c String.[]
kept c (String.◌∷◌ d s) = String.◌∷◌ c (String.◌∷◌ d s)

unfoldable pub rstrip : String → String
rstrip String.[] = String.[]
rstrip (String.◌∷◌ c s) = kept c (rstrip s)

-- `value.strip()`
unfoldable pub strip : String → String
strip s = rstrip (lstrip s)

unfoldable pub append : String → String → String
append String.[] t = t
append (String.◌∷◌ c s) t = String.◌∷◌ c (append s t)

-- `value.split()`: a character that is no space stands in front of the first word of the rest, or is a
-- word of its own when the rest begins with a space.
abbrev pub starts_word : String → Bool
starts_word String.[] = false
starts_word (String.◌∷◌ c s) = not (is_space c)

abbrev pub glue : Char → Bool → List String → List String
glue c joined [] = String.◌∷◌ c String.[] ∷ []
glue c true (w ∷ ws) = String.◌∷◌ c w ∷ ws
glue c false (w ∷ ws) = String.◌∷◌ c String.[] ∷ w ∷ ws

unfoldable pub words : String → List String
words String.[] = []
words (String.◌∷◌ c s) =
    let rest = words s in if is_space c then rest else glue c (starts_word s) rest

-- `separator.join(parts)`
unfoldable pub join : String → List String → String
join separator [] = String.[]
join separator (first ∷ []) = first
join separator (first ∷ second ∷ rest) =
    append first (append separator (join separator (second ∷ rest)))

-- `value.replace("\r\n", "\n").replace("\r", "\n")`: each line end becomes one line feed.
abbrev starts_line_feed : String → Bool
starts_line_feed String.[] = false
starts_line_feed (String.◌∷◌ d s) = nat_beq (code d) 10

unfoldable pub replace_crlf : String → String
replace_crlf String.[] = String.[]
replace_crlf (String.◌∷◌ c s) =
    let rest = replace_crlf s in
    if nat_beq (code c) 13 && starts_line_feed s then rest else String.◌∷◌ c rest

unfoldable pub replace_cr : String → String
replace_cr String.[] = String.[]
replace_cr (String.◌∷◌ c s) =
    let rest = replace_cr s in
    if nat_beq (code c) 13 then String.◌∷◌ "\n" rest else String.◌∷◌ c rest

unfoldable pub unix_lines : String → String
unix_lines s = replace_cr (replace_crlf s)

-- `value[:n]`
unfoldable pub text_take : ℕ → String → String
text_take zero s = String.[]
text_take (suc n) String.[] = String.[]
text_take (suc n) (String.◌∷◌ c s) = String.◌∷◌ c (text_take n s)

-- `str(n)`: a number below 10 is one digit, and each further digit divides by 10, so `suc n` rounds
-- are enough.
unfoldable pub digits_before : ℕ → ℕ → String → String
digits_before zero n digits = digits
digits_before (suc fuel) n digits =
    let longer = String.◌∷◌ (char_at "0123456789" (n % 10)) digits in
    let rest = digits_before fuel (n / 10) longer in if nat_beq (n / 10) 0 then longer else rest

unfoldable pub decimal : ℕ → String
decimal n = digits_before (suc n) n String.[]
