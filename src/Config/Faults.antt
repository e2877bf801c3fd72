-- ===== src/Config/Faults.antt =====
-- src/lcapd/config.c: lines that are no statements.
use lcap.Base.{
  ℕ, ◌≡◌, refl, Bool, true, false, ◌&&◌, leb, List, [], ◌∷◌, ◌++◌, none, neg, einval, ap, ◌∙◌,
  length, arith,
}
use lcap.Sys.{World}
use lcap.Sys.Run.{ok, fault, and_then}
use lcap.Config.Text.{is_space, startswith, drop_space, drop_word, word, non_empty, sscanf_arg}
use lcap.Config.Lines.{
  Loading, add_mdt, set_field, with_arg, copied, cfg_get_arg, max_mdt, handle_cfg_mdtdevice_line,
  dispatch, parse_config_line,
}
use lcap.Config.Lines.Name
use lcap.Config.Statements.{
  Statement, batch_records, max_buckets, logtype, workers, mdtdevice, clreader, comment, print,
}

abbrev pub blank : List ℕ → Bool
blank [] = true
blank (c ∷ cs) = is_space c && blank cs

abbrev pub is_comment : Statement → Bool
is_comment (comment text) = true
is_comment s = false

drop_space-blank : (cs : List ℕ) → blank cs ≡ true → drop_space cs ≡ []
unfolding drop_space
drop_space-blank [] h = refl
drop_space-blank (c ∷ cs) h =
    let space : is_space c ≡ true = ground arith in
    let rest : blank cs ≡ true = ground arith in rw space (drop_space-blank cs rest)

drop_word-blank : (cs : List ℕ) → blank cs ≡ true → drop_word cs ≡ cs
unfolding drop_word
drop_word-blank [] h = refl
drop_word-blank (c ∷ cs) h = let space : is_space c ≡ true = ground arith in rw space refl

no_argument : (cs : List ℕ) → blank cs ≡ true → sscanf_arg (Name.mdtdevice ++ cs) ≡ none
unfolding sscanf_arg drop_space drop_word word
no_argument cs h =
    ap (λ ds. non_empty (word 254 (drop_space ds))) (drop_word-blank cs h)
    ∙ ap (λ ds. non_empty (word 254 ds)) (drop_space-blank cs h)

-- A line that says mdtdevice with only white space behind it, while there is room for a device, is
-- used with an argument that nothing has written: it is not answered by -EINVAL.
pub no_device_faults :
    (w : World) (cs : List ℕ) (l : Loading)
    → blank cs ≡ true
    → leb max_mdt (length l.config.ccf_mdt) ≡ false
    → parse_config_line w (Name.mdtdevice ++ cs) l ≡ fault l
unfolding parse_config_line dispatch startswith drop_space handle_cfg_mdtdevice_line cfg_get_arg
no_device_faults w cs l h room = rw room (
    ap (λ o. and_then (copied w o l) (λ mdtdev. with_arg mdtdev (λ dev. set_field (add_mdt dev))))
      (no_argument cs h))

-- A statement behind white space, which the check for comments passes over, is an unknown one.
pub indented_is_unknown :
    (w : World) (s : Statement) (l : Loading)
    → (is_comment s ≡ false)
    → parse_config_line w (32 ∷ (print s ++ 10 ∷ [])) l ≡ ok (neg einval) l
unfolding parse_config_line dispatch startswith drop_space
indented_is_unknown w (batch_records text n) l h = refl
indented_is_unknown w (max_buckets text n) l h = refl
indented_is_unknown w (logtype name) l h = refl
indented_is_unknown w (workers text n) l h = refl
indented_is_unknown w (mdtdevice dev) l h = refl
indented_is_unknown w (clreader id) l h = refl
indented_is_unknown w (comment text) l h = cc
