-- ===== src/LinkedList/Find.antt =====
-- `list_find`, and its use with `list_delete`, on a list that is well linked.
use night_os.Base.{
  ℕ, zero, suc, ◌<◌, ◌≡◌, refl, ap, ◌∙◌, Bool, true, false, Option, none, some, List, [], ◌∷◌, ◌++◌,
  arith, ◌==◌, if◌then◌else◌, ==_iff, length, append_assoc, Run, ok,
}
use night_os.LinkedList.{LinkedList, find_loop, find}
use night_os.LinkedList.Chain.{Items, head_or}
use night_os.LinkedList.Delete.{IsList}
use night_os.LinkedList.Remove.{at_entry, nonzero}

abbrev pub values : Items → List ℕ
values [] = []
values ((a, v) ∷ r) = v ∷ values r

-- the values without the first of a kind
unfoldable pub without : ℕ → List ℕ → List ℕ
without item [] = []
without item (v ∷ vs) = if v == item then vs else v ∷ without item vs

-- the entries before the first one with the value, and those behind it
pub record Split (item a : ℕ) (items : Items) : Type 0 where
  pub before : Items
  pub behind : Items
  pub parts : items ≡ before ++ (a, item) ∷ behind
  pub rest : without item (values items) ≡ values (before ++ behind)

-- the address of the first entry with the value
unfoldable pub first_with : ℕ → Items → Option ℕ
first_with item [] = none
first_with item ((a, v) ∷ r) = if v == item then some a else first_with item r

find_loop-first_with :
    (fuel item : ℕ) (l : LinkedList) (xs ys : Items)
    → IsList l (xs ++ ys)
    → length ys < fuel
    → find_loop fuel item (head_or ys none) l ≡ ok (first_with item ys)
unfolding find_loop first_with
find_loop-first_with zero item l xs ys i h = absurd (omega arith)
find_loop-first_with (suc fuel) item l xs [] i h = refl
find_loop-first_with (suc fuel) item l xs ((a, v) ∷ ys) i h =
    let more : IsList l ((xs ++ (a, v) ∷ []) ++ ys) = rw (append_assoc xs ((a, v) ∷ []) ys) i in
    rw (at_entry l xs a v ys i)
      (go (v == item) (find_loop-first_with fuel item l (xs ++ (a, v) ∷ []) ys more (omega arith)))
  where
    go :
        (b : Bool)
        → find_loop fuel item (head_or ys none) l ≡ ok (first_with item ys)
        → elim b as (λ _. Run (Option ℕ)) [
          | true ↦ ok (some a)
          | false ↦ find_loop fuel item (head_or ys none) l
        ]
          ≡ ok (if b then some a else first_with item ys)
    go true e = refl
    go false e = e

-- `list_find` returns the first entry with the value, or NULL if there is none.
pub find-first_with :
    (item : ℕ) (l : LinkedList) (items : Items)
    → IsList l items
    → find item l ≡ ok (first_with item items)
unfolding find
find-first_with item l [] i = rw (i.counted) (unfold first_with in refl)
find-first_with item l ((a, v) ∷ r) i = rw (nonzero l.length (omega (arith, i.counted))) (
    ap (λ p. find_loop (suc l.length) item p l) i.starts
    ∙ find_loop-first_with (suc l.length) item l [] ((a, v) ∷ r) i (omega (arith, i.counted)))

pub first_with-Split :
    (item a : ℕ) (items : Items) → first_with item items ≡ some a → Split item a items
unfolding first_with without
first_with-Split item a [] e = cc e
first_with-Split item a ((b, v) ∷ r) e = go (v == item) refl e (first_with-Split item a r)
  where
    go :
        (t : Bool)
        → (v == item) ≡ t
        → (if t then some b else first_with item r) ≡ some a
        → (first_with item r ≡ some a → Split item a r)
        → Split item a ((b, v) ∷ r)
    go true q e more =
        let same = (==_iff v item).0 q in
        record { before = []; behind = r; parts = cc (e, same); rest = rw (q) refl }
    go false q e more =
        let s = more e in
        record {
          before = (b, v) ∷ s.before;
          behind = s.behind;
          parts = ap (λ r. (b, v) ∷ r) s.parts;
          rest = rw (q) (ap (λ r. v ∷ r) s.rest);
        }
