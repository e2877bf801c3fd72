-- ===== src/Config/Text.antt =====
-- src/lcapd/config.c: how it reads the words of a line, with strncasecmp, sscanf and atoi.
use lcap.Base.{
  ℕ, zero, suc, ◌+◌, ◌-◌, ◌*◌, ◌^◌, Bool, true, false, ◌&&◌, ◌||◌, List, [], ◌∷◌, Option, none,
  some, ltb, leb, ◌==◌, if◌then◌else◌, ℤ, pos, neg,
}

-- isspace in the C locale
abbrev pub is_space : ℕ → Bool
is_space c = c == 32 || (leb 9 c && leb c 13)

abbrev pub tolower : ℕ → ℕ
tolower c = if leb 65 c && leb c 90 then c + 32 else c

unfoldable pub startswith : List ℕ → List ℕ → Bool
startswith haystack [] = true
startswith [] (n ∷ needle) = false
startswith (c ∷ haystack) (n ∷ needle) = tolower c == tolower n && startswith haystack needle

unfoldable pub drop_space : List ℕ → List ℕ
drop_space [] = []
drop_space (c ∷ cs) = if is_space c then drop_space cs else c ∷ cs

unfoldable pub drop_word : List ℕ → List ℕ
drop_word [] = []
drop_word (c ∷ cs) = if is_space c then c ∷ cs else drop_word cs

-- The word that a text starts with, up to a number of bytes.
unfoldable pub word : ℕ → List ℕ → List ℕ
word zero cs = []
word (suc n) [] = []
word (suc n) (c ∷ cs) = if is_space c then [] else c ∷ word n cs

abbrev pub non_empty : List ℕ → Option (List ℕ)
non_empty [] = none
non_empty (c ∷ cs) = some (c ∷ cs)

-- sscanf(line, "%*s %254s", arg): none is EOF, where the text ends before the argument, and `arg` is
-- not written. A `%s` that reads nothing is at the end of the text, so it is never 0.
unfoldable pub sscanf_arg : List ℕ → Option (List ℕ)
sscanf_arg line = non_empty (word 254 (drop_space (drop_word (drop_space line))))

abbrev pub is_digit : ℕ → Bool
is_digit c = leb 48 c && leb c 57

unfoldable pub digits : ℕ → List ℕ → ℕ
digits n [] = n
digits n (c ∷ cs) = if is_digit c then digits (10 * n + (c - 48)) cs else n

-- A value that is no int is undefined.
abbrev pub positive : ℕ → Option ℤ
positive n = if ltb n (2 ^ 31) then some (pos n) else none

abbrev pub negative : ℕ → Option ℤ
negative n = if leb n (2 ^ 31) then some (neg n) else none

abbrev pub signed : List ℕ → Option ℤ
signed [] = some (pos 0)
signed (c ∷ cs) =
    if c == 45
    then negative (digits 0 cs)
    else if c == 43
    then positive (digits 0 cs)
    else positive (digits 0 (c ∷ cs))

unfoldable pub atoi : List ℕ → Option ℤ
atoi text = signed (drop_space text)
