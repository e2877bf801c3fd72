-- ===== src/Config/Scan.antt =====
-- src/lcapd/config.c: the words and the lines that the parser finds in a printed file.
use lcap.Base.{
  ℕ, zero, suc, ◌-◌, ◌≤◌, ◌≡◌, refl, ap, ◌∙◌, true, false, List, [], ◌∷◌, ◌++◌, some, ◌==◌, length,
  arith,
}
use lcap.Wire.{c_string}
use lcap.Config.Text.{is_space, drop_space, drop_word, word, non_empty, sscanf_arg}
use lcap.Config.Statements.{plain, one_line, Word}
use lcap.Config.File.{fgets_lines, onto_first}

plain-head : (c : ℕ) (cs : List ℕ) → plain (c ∷ cs) ≡ true → is_space c ≡ false
plain-head c cs h = ground arith

plain-tail : (c : ℕ) (cs : List ℕ) → plain (c ∷ cs) ≡ true → plain cs ≡ true
plain-tail c cs h = ground arith

drop_word_lem : (cs rest : List ℕ) → plain cs ≡ true → drop_word (cs ++ 32 ∷ rest) ≡ 32 ∷ rest
unfolding drop_word
drop_word_lem [] rest h = refl
drop_word_lem (c ∷ cs) rest h = rw (plain-head c cs h) (drop_word_lem cs rest (plain-tail c cs h))

word_lem :
    (n : ℕ) (cs : List ℕ) → length cs ≤ n → plain cs ≡ true → word (suc n) (cs ++ 10 ∷ []) ≡ cs
unfolding word
word_lem n [] short h = refl
word_lem zero (c ∷ cs) short h = absurd (omega arith)
word_lem (suc n) (c ∷ cs) short h =
    rw (plain-head c cs h) (ap (λ r. c ∷ r) (word_lem n cs (omega arith) (plain-tail c cs h)))

-- The argument of a line that is a name, a space and a word.
drop_space_plain :
    (c : ℕ) (cs rest : List ℕ) → plain (c ∷ cs) ≡ true → drop_space (c ∷ rest) ≡ c ∷ rest
unfolding drop_space
drop_space_plain c cs rest h = rw (plain-head c cs h) refl

pub sscanf_arg_lem :
    (n : ℕ) (name arg : List ℕ)
    → plain (n ∷ name) ≡ true
    → Word arg
    → sscanf_arg (n ∷ (name ++ (32 ∷ (arg ++ 10 ∷ [])))) ≡ some arg
unfolding sscanf_arg drop_space
sscanf_arg_lem n name [] h v = absurd (ground (arith, v.some_byte))
sscanf_arg_lem n name (a ∷ arg) h v =
    ap (λ cs. non_empty (word 254 (drop_space (drop_word cs)))) (drop_space_plain n name _ h)
    ∙ ap (λ cs. non_empty (word 254 (drop_space cs))) (drop_word_lem (n ∷ name) _ h)
    ∙ ap (λ cs. non_empty (word 254 cs)) (behind_space a arg v.no_space)
    ∙ ap non_empty (word_lem 253 (a ∷ arg) (long_enough v.short) v.no_space)
  where
    long_enough : {k : ℕ} → k ≤ 112 → k ≤ 253
    long_enough h = omega arith

    behind_space :
        (c : ℕ) (cs : List ℕ)
        → plain (c ∷ cs) ≡ true
        → drop_space (32 ∷ c ∷ (cs ++ 10 ∷ [])) ≡ c ∷ (cs ++ 10 ∷ [])
    behind_space c cs h = drop_space_plain c cs (cs ++ 10 ∷ []) h

-- Neither zero nor the end of a line is in a text.
pub one_line-plain : (cs : List ℕ) → plain cs ≡ true → one_line cs ≡ true
one_line-plain [] h = refl
one_line-plain (c ∷ cs) h =
    let rest : one_line cs ≡ true = one_line-plain cs (plain-tail c cs h) in
    let space : is_space c ≡ false = plain-head c cs h in ground arith

pub one_line-append :
    (cs ds : List ℕ) → one_line cs ≡ true → one_line ds ≡ true → one_line (cs ++ ds) ≡ true
one_line-append [] ds h h' = h'
one_line-append (c ∷ cs) ds h h' =
    let rest : one_line (cs ++ ds) ≡ true = one_line-append cs ds (ground (arith, h)) h' in
    ground arith

pub c_string_line : (cs : List ℕ) → one_line cs ≡ true → c_string (cs ++ 10 ∷ []) ≡ cs ++ 10 ∷ []
unfolding c_string
c_string_line [] h = refl
c_string_line (c ∷ cs) h =
    let zero_ : (c == 0) ≡ false = ground arith in
    let rest : one_line cs ≡ true = ground arith in
    rw zero_ (ap (λ r. c ∷ r) (c_string_line cs rest))

-- A line that fits in the buffer is read whole.
pub fgets_lines_lem :
    (room : ℕ) (cs rest : List ℕ)
    → one_line cs ≡ true
    → suc (length cs) ≤ room
    → fgets_lines room (cs ++ 10 ∷ rest) ≡ (cs ++ 10 ∷ []) ∷ fgets_lines 127 rest
unfolding fgets_lines
fgets_lines_lem room [] rest h short = refl
fgets_lines_lem room (c ∷ cs) rest h short =
    let newline : (c == 10) ≡ false = ground arith in
    let last : (room == 1) ≡ false = ground arith in
    let inner : one_line cs ≡ true = ground arith in
    rw (newline, last) (ap (onto_first c) (fgets_lines_lem (room - 1) cs rest inner (omega arith)))
