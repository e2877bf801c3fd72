-- ===== src/Config/Lines/Name.antt =====
-- src/lcapd/config.c: the names of the directives, as bytes.
use lcap.Base.{ℕ, List, [], ◌∷◌}

abbrev pub batch_records : List ℕ
batch_records = 98 ∷ 97 ∷ 116 ∷ 99 ∷ 104 ∷ 95 ∷ 114 ∷ 101 ∷ 99 ∷ 111 ∷ 114 ∷ 100 ∷ 115 ∷ []

abbrev pub max_buckets : List ℕ
max_buckets = 109 ∷ 97 ∷ 120 ∷ 95 ∷ 98 ∷ 117 ∷ 99 ∷ 107 ∷ 101 ∷ 116 ∷ 115 ∷ []

abbrev pub logtype : List ℕ
logtype = 108 ∷ 111 ∷ 103 ∷ 116 ∷ 121 ∷ 112 ∷ 101 ∷ []

abbrev pub workers : List ℕ
workers = 119 ∷ 111 ∷ 114 ∷ 107 ∷ 101 ∷ 114 ∷ 115 ∷ []

abbrev pub mdtdevice : List ℕ
mdtdevice = 109 ∷ 100 ∷ 116 ∷ 100 ∷ 101 ∷ 118 ∷ 105 ∷ 99 ∷ 101 ∷ []

abbrev pub clreader : List ℕ
clreader = 99 ∷ 108 ∷ 114 ∷ 101 ∷ 97 ∷ 100 ∷ 101 ∷ 114 ∷ []
