-- ===== src/Modules/Symbol.antt =====
-- src/lcapd/modules.c: the names of the symbols of a module, as bytes.
use lcap.Base.{ℕ, List, [], ◌∷◌}

abbrev pub name : List ℕ
name = 108 ∷ 99 ∷ 97 ∷ 112 ∷ 95 ∷ 109 ∷ 111 ∷ 100 ∷ 117 ∷ 108 ∷ 101 ∷ 95 ∷ 110 ∷ 97 ∷ 109 ∷ 101 ∷ []

abbrev pub init : List ℕ
init =
    108 ∷ 99 ∷ 97 ∷ 112 ∷ 95 ∷ 109 ∷ 111 ∷ 100 ∷ 117 ∷ 108 ∷ 101 ∷ 95 ∷ 105 ∷ 110 ∷ 105 ∷ 116 ∷ []

abbrev pub destroy : List ℕ
destroy =
    108 ∷ 99 ∷ 97 ∷ 112 ∷ 95 ∷ 109 ∷ 111 ∷ 100 ∷ 117 ∷ 108 ∷ 101 ∷ 95 ∷ 100 ∷ 101 ∷ 115 ∷ 116 ∷ 114
    ∷ 111 ∷ 121 ∷ []

abbrev pub rec_enqueue : List ℕ
rec_enqueue =
    108 ∷ 99 ∷ 97 ∷ 112 ∷ 95 ∷ 109 ∷ 111 ∷ 100 ∷ 117 ∷ 108 ∷ 101 ∷ 95 ∷ 114 ∷ 101 ∷ 99 ∷ 95 ∷ 101
    ∷ 110 ∷ 113 ∷ 117 ∷ 101 ∷ 117 ∷ 101 ∷ []

abbrev pub rec_dequeue : List ℕ
rec_dequeue =
    108 ∷ 99 ∷ 97 ∷ 112 ∷ 95 ∷ 109 ∷ 111 ∷ 100 ∷ 117 ∷ 108 ∷ 101 ∷ 95 ∷ 114 ∷ 101 ∷ 99 ∷ 95 ∷ 100
    ∷ 101 ∷ 113 ∷ 117 ∷ 101 ∷ 117 ∷ 101 ∷ []

abbrev pub set_ack : List ℕ
set_ack =
    108 ∷ 99 ∷ 97 ∷ 112 ∷ 95 ∷ 109 ∷ 111 ∷ 100 ∷ 117 ∷ 108 ∷ 101 ∷ 95 ∷ 115 ∷ 101 ∷ 116 ∷ 95 ∷ 97
    ∷ 99 ∷ 107 ∷ []

abbrev pub get_ack : List ℕ
get_ack =
    108 ∷ 99 ∷ 97 ∷ 112 ∷ 95 ∷ 109 ∷ 111 ∷ 100 ∷ 117 ∷ 108 ∷ 101 ∷ 95 ∷ 103 ∷ 101 ∷ 116 ∷ 95 ∷ 97
    ∷ 99 ∷ 107 ∷ []
