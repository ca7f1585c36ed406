-- ===== src/Hashtable/Refine.antt =====
-- Any sequence of table operations against a map from keys to values.
use night_os.Base.{
  ℕ, ◌<◌, ◌^◌, ◌≡◌, refl, Bool, true, false, List, [], ◌∷◌, ◌==◌, arith, if◌then◌else◌, Option,
  none, some, Option-cases, Bool-cases, inl, inr, Run, ok, ◌>>=◌,
}
use night_os.Str.{CString, IsString}
use night_os.Hashtable
use night_os.Hashtable.{Table}
use night_os.Hashtable.Chains.{same}
use night_os.Hashtable.Slots.{IsValid, view, create-IsValid, view-create}
use night_os.Hashtable.Laws.{
  Updates, insert-Updates, delete-Updates, lookup-view, remove_present, remove_absent,
}

pub data Op : Type 0 where
  insert : CString → ℕ → Op
  delete : CString → Op
  lookup : CString → Op
  remove : CString → ℕ → Op

pub data Reply : Type 0 where
  done : Reply
  value : ℕ → Reply
  removed : Bool → Reply

abbrev pub Map : Type 0
Map = CString → Option ℕ

abbrev pub update : CString → Option ℕ → Map → Map
update k r m j = if same k j then r else m j

-- what a map does and answers
unfoldable pub map_step : Op → Map → Reply × Map
map_step (insert k x) m = (done, update k (some x) m)
map_step (delete k) m = (done, update k none m)
map_step (lookup k) m = (value (elim (m k) [ none ↦ 0 | some x ↦ x ]), m)
map_step (remove k x) m = elim (m k) [
  | none ↦ (removed false, m)
  | some y ↦ if y == x then (removed true, update k none m) else (removed false, m)
]

unfoldable pub map_run : List Op → Map → List Reply
map_run [] m = []
map_run (op ∷ ops) m = let (r, m') = map_step op m in r ∷ map_run ops m'

-- what the table does and answers
unfoldable pub step : Op → Table → Run (Reply × Table)
step (insert k x) t = do t' ← Hashtable.insert t k x; ok (done, t')
step (delete k) t = do t' ← Hashtable.delete t k; ok (done, t')
step (lookup k) t = do x ← Hashtable.lookup t k; ok (value x, t)
step (remove k x) t = do (b, t') ← Hashtable.remove_by_key_and_value t k x; ok (removed b, t')

unfoldable pub run : List Op → Table → Run (List Reply)
run [] t = ok []
run (op ∷ ops) t = do (r, t') ← step op t; rs ← run ops t'; ok (r ∷ rs)

abbrev pub key_of : Op → CString
key_of (insert k x) = k
key_of (delete k) = k
key_of (lookup k) = k
key_of (remove k x) = k

abbrev pub AllStrings : List Op → Type 0
AllStrings [] = Unit {0}
AllStrings (op ∷ ops) = IsString (key_of op) × AllStrings ops

pub record Models (m : Map) (t : Table) : Type 0 where
  pub valid : IsValid t
  pub reads : (j : CString) → IsString j → view t j ≡ m j

Updates-Models :
    {m : Map} {t t' : Table} (k : CString) (r : Option ℕ)
    → Models m t
    → Updates t k r t'
    → Models (update k r m) t'
Updates-Models k r v u = record { valid = u.0; reads = λ j q. ground (arith, u.1 j q, v.reads j q) }

-- One operation: the same reply, and the table models the new map.
step-Models :
    (op : Op) {m : Map} {t : Table}
    → Models m t
    → IsString (key_of op)
    → (t' : Table) × (step op t ≡ ok ((map_step op m).0, t')) × Models (map_step op m).1 t'
unfolding step map_step
step-Models (insert k x) v q =
    let (t', run, u) = insert-Updates v.valid k q x in (t', rw run, Updates-Models k (some x) v u)
step-Models (delete k) v q =
    let (t', run, u) = delete-Updates v.valid k q in (t', rw run, Updates-Models k none v u)
step-Models (lookup k) {t} v q = (t, rw (lookup-view v.valid k q, v.reads k q), v)
step-Models (remove k x) {m} {t} v q = elim (Option-cases (m k)) [
  | inl e ↦ (t, ground (arith, remove_absent v.valid k q x, v.reads k q), rw (e, map_step) v)
  | inr (y, e) ↦ elim (Bool-cases (y == x)) [
    | inl hit ↦
        let (r, run, (b, u)) = remove_present v.valid k q x (ground (arith, v.reads k q)) in
        (r.1, ground (arith, run, b), rw (e, map_step, hit) (Updates-Models k none v u))
    | inr miss ↦
        (t, ground (arith, remove_absent v.valid k q x, v.reads k q), rw (e, map_step, miss) v)
  ]
]

run-Models :
    (ops : List Op) {m : Map} {t : Table}
    → Models m t
    → AllStrings ops
    → run ops t ≡ ok (map_run ops m)
unfolding run map_run
run-Models [] v q = refl
run-Models (op ∷ ops) v q =
    let (t', e, v') = step-Models op v q.0 in rw (e, ◌>>=◌, run-Models ops v' q.1)

-- From a new table on, any sequence of operations on keys that are strings answers as a map that is
-- empty at first; no operation faults.
pub run_refines_map :
    (size : ℕ) (ops : List Op)
    → 0 < size
    → size < 2 ^ 31
    → AllStrings ops
    → run ops (Hashtable.create size) ≡ ok (map_run ops (λ _. none))
run_refines_map size ops h k q =
    run-Models ops (record { valid = create-IsValid size h k; reads = λ j _. view-create size j }) q
