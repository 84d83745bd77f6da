-- ===== src/Examples/Maps.antt =====
-- Hash maps: the theorems at concrete inputs.
use rtmessage.Prelude.{ℕ, ◌≡◌, some, none, List, codes}
use rtmessage.HashMap.{HashMap, string_config, create, insert, remove, contains}
use rtmessage.HashMap.Resize.{IsValid}
use rtmessage.HashMap.Map.{Answers}
use rtmessage.HashMap.Insert.{insert-Answers}
use rtmessage.HashMap.Remove.{remove-Answers}
use rtmessage.HashMap.Strings.{string_config-IsHasher, create-IsValid}

abbrev fresh : HashMap (List ℕ) ℕ
fresh = create

insert-Answers_example :
    (m' : HashMap (List ℕ) ℕ) × (insert string_config fresh (codes "a.b") 7 ≡ some m')
    × IsValid string_config m'
    × Answers string_config fresh (codes "a.b") (some 7) m'
insert-Answers_example =
    insert-Answers string_config-IsHasher fresh (codes "a.b") 7 (create-IsValid string_config)

remove-Answers_example :
    (m' : HashMap (List ℕ) ℕ) × (remove string_config fresh (codes "a.b")
      ≡ some (contains string_config fresh (codes "a.b"), m'))
    × IsValid string_config m'
    × Answers string_config fresh (codes "a.b") none m'
remove-Answers_example =
    remove-Answers string_config-IsHasher fresh (codes "a.b") (create-IsValid string_config)
