-- ===== src/Tests/QueueCases.antt =====
-- The theorems on src/include/queue.h at concrete lists.
use lcap.Base.{◌==◌, if◌then◌else◌, ◌≡◌, refl, [], ◌∷◌, none, some, pos, arith}
use lcap.Queue.{LinkedList, list_foreach_entry, list_remove}
use lcap.Queue.Links.{IsList}
use lcap.Queue.Scripts.{
  Script, done, then_op, append, insert_before, pop_head, run_script, script-IsList,
}
use lcap.Queue.Walk.{foreach_visits, buckets-IsList}
use lcap.Reader.State.{next_index}
use lcap.Reader.Invariant.{indices}
use lcap.Tests.States.{first, second}

abbrev fresh : LinkedList
fresh = record {
  l_count = pos 0;
  l_first = none;
  l_last = none;
  nodes = λ a. record { ln_prev = none; ln_next = none };
}

fresh-IsList : IsList fresh []
fresh-IsList = record { count = refl; first = refl; last = refl; chain = tt; distinct = tt }

-- 7 and 8 are appended, 9 goes between them, and the head is popped.
abbrev edits : Script [] (9 ∷ 8 ∷ [])
edits =
    then_op
      (then_op
        (then_op (then_op done (append 7 tt refl)) (append 8 (λ e. omega (arith, e), tt) refl))
        (insert_before (7 ∷ []) 8 [] 9 (λ e. omega (arith, e), (λ e. omega (arith, e), tt)) refl
          refl))
      (pop_head 7 refl)

script-IsList_example : IsList (run_script edits fresh) (9 ∷ 8 ∷ [])
script-IsList_example = script-IsList edits fresh-IsList

abbrev pair : LinkedList
pair = record fresh {
  l_count = pos 2;
  l_first = some 0;
  l_last = some 1;
  nodes = λ a.
      if a == 0
      then record { ln_prev = none; ln_next = some 1 }
      else record { ln_prev = some 0; ln_next = none };
}

buckets-IsList_example :
    ((pair.nodes 0).ln_next ≡ next_index 0 (first ∷ second ∷ []))
    × IsList (list_remove pair 0) (indices (second ∷ []))
buckets-IsList_example =
    buckets-IsList 0 (first ∷ second ∷ [])
      (record {
        count = refl;
        first = refl;
        last = refl;
        chain = (refl, refl, (refl, refl, tt));
        distinct = ((λ e. omega (arith, e), tt), (tt, tt));
      })
      refl

edited : IsList (run_script edits fresh) (9 ∷ 8 ∷ [])
edited = script-IsList edits fresh-IsList

foreach_visits_example :
    list_foreach_entry 3 (run_script edits fresh).nodes (run_script edits fresh).l_first
    ≡ 9 ∷ 8 ∷ []
foreach_visits_example = foreach_visits (9 ∷ 8 ∷ []) 3 edited (omega arith)
