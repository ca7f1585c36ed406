-- ===== src/Hashtable/Tests.antt =====
-- The theorems about the hash table at concrete tables, and small runs.
use night_os.Base.{◌≡◌, refl, true, false, none, List, [], ◌∷◌, arith, ok}
use night_os.Str.{CString, strcmp}
use night_os.Hashtable.{Table, create}
use night_os.Hashtable.Chains.{find}
use night_os.Hashtable.Slots.{IsValid}
use night_os.Hashtable.Refine.{Op, Reply, value, removed, done, run, map_run, run_refines_map}
use night_os.Hashtable.Refine

-- "a" and "b", which meet in the one slot of a table of size 1
abbrev key_a : CString
key_a = 97 ∷ []

abbrev key_b : CString
key_b = 98 ∷ []

abbrev script : List Op
script =
    Op.insert key_a 5
    ∷ Op.insert key_b 6
    ∷ Op.insert key_a 7
    ∷ Op.lookup key_a
    ∷ Op.remove key_b 5
    ∷ Op.remove key_b 6
    ∷ Op.lookup key_b
    ∷ []

map_run-script :
    map_run script (λ _. none)
    ≡ done ∷ done ∷ done ∷ value 7 ∷ removed false ∷ removed true ∷ value 0 ∷ []
unfolding map_run Refine.map_step strcmp
map_run-script = refl

run_refines_map_example : run script (create 1) ≡ ok (map_run script (λ _. none))
run_refines_map_example = run_refines_map 1 script (omega arith) (omega arith) (omega arith)

abbrev held : Table
held = record { size = 1; entries = (record { key = key_a; value = 5 } ∷ []) ∷ [] }

held-IsValid : IsValid held
unfolding find
held-IsValid = ground arith
