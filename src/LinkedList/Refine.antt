-- ===== src/LinkedList/Refine.antt =====
-- The list against a sequence of values: any calls of list_insert, list_remove_by_index, list_find,
-- and list_delete of an entry that list_find found.
use night_os.Base.{
  ℕ, zero, suc, ◌+◌, ◌-◌, ◌^◌, ◌<◌, ◌≤◌, ◌≡◌, ◌≢◌, refl, sym, ap, ◌∙◌, Bool, true, false, ◌&&◌,
  Option, none, some, List, [], ◌∷◌, ◌++◌, arith, ◌==◌, if◌then◌else◌, inl, inr, ◌⊎◌, ==_iff,
  length, length-append, Run, ok, fault, ◌>>=◌,
}
use mathlib.Core.Path.{subst}
use night_os.LinkedList.{LinkedList, insert, remove_by_index, find, delete}
use night_os.LinkedList.Chain.{Items, Seg, Away}
use night_os.LinkedList.Delete.{IsList, delete-Deleted}
use night_os.LinkedList.Insert.{insert-Inserted}
use night_os.LinkedList.Remove.{drop_at, remove_by_index-Leaves, remove_by_index-faults}
use night_os.LinkedList.Find.{values, without, first_with, find-first_with, first_with-Split}

-- a call; that of `list_insert` has the address of the entry that kcalloc returns
pub data Call : Type 0 where
  insert_item : ℕ → ℕ → Call
  remove_index : ℕ → Call
  find_item : ℕ → Call
  delete_item : ℕ → Call

-- the sequence after a call, and whether the value was there; none where the call faults
unfoldable pub spec_remove : ℕ → List ℕ → List ℕ
spec_remove n [] = []
spec_remove zero (v ∷ vs) = vs
spec_remove (suc n) (v ∷ vs) = v ∷ spec_remove n vs

unfoldable pub has : ℕ → List ℕ → Bool
has item [] = false
has item (v ∷ vs) = if v == item then true else has item vs

unfoldable pub spec : Call → List ℕ → Option (List ℕ × Bool)
spec (insert_item a v) vs = some (vs ++ v ∷ [], true)
spec (remove_index n) vs =
    if n == 1 && length vs == 1 then none else some (spec_remove (n - 1) vs, true)
spec (find_item v) vs = some (vs, has v vs)
spec (delete_item v) vs = some (without v vs, has v vs)

abbrev pub delete_found : Option ℕ → LinkedList → Run (LinkedList × Bool)
delete_found none l = ok (l, false)
delete_found (some a) l = do l ← delete a l; ok (l, true)

abbrev pub is_some : Option ℕ → Bool
is_some none = false
is_some (some a) = true

-- the same call on the list
unfoldable pub perform : Call → LinkedList → Run (LinkedList × Bool)
perform (insert_item a v) l = do l ← insert a v l; ok (l, true)
perform (remove_index n) l = do l ← remove_by_index n l; ok (l, true)
perform (find_item v) l = do p ← find v l; ok (l, is_some p)
perform (delete_item v) l = do p ← find v l; delete_found p l

-- the list holds these values in this order
abbrev pub Holds : LinkedList → List ℕ → Type 0
Holds l vs = (items : Items) × IsList l items × (values items ≡ vs)

-- the call did what the specification says
abbrev pub Agrees : Run (LinkedList × Bool) → Option (List ℕ × Bool) → Type 0
Agrees r none = r ≡ fault
Agrees r (some (vs, b)) = (l : LinkedList) × (r ≡ ok (l, b)) × Holds l vs

values-append : (xs ys : Items) → values (xs ++ ys) ≡ values xs ++ values ys
values-append [] ys = refl
values-append ((a, v) ∷ xs) ys = ap (λ r. v ∷ r) (values-append xs ys)

length-values : (xs : Items) → length (values xs) ≡ length xs
length-values [] = refl
length-values ((a, v) ∷ xs) = ap suc (length-values xs)

values-drop_at : (n : ℕ) (xs : Items) → values (drop_at n xs) ≡ spec_remove n (values xs)
unfolding spec_remove
values-drop_at n [] = refl
values-drop_at zero ((a, v) ∷ xs) = refl
values-drop_at (suc n) ((a, v) ∷ xs) = ap (λ r. v ∷ r) (values-drop_at n xs)

-- memory that is free is not in the list
free-Away :
    (a : ℕ) (l : LinkedList) (p n : Option ℕ) (items : Items)
    → l.cells a ≡ none
    → Seg l.cells p items n
    → Away a items
unfolding Seg Away
free-Away a l p n [] e s = tt
free-Away a l p n ((b, v) ∷ r) e (f, s) =
    ((λ q. cc (ap l.cells q, e, f)), free-Away a l (some b) n r e s)

has-first_with :
    (item : ℕ) (items : Items) → has item (values items) ≡ is_some (first_with item items)
unfolding has first_with
has-first_with item [] = refl
has-first_with item ((a, v) ∷ r) = ground (arith, has-first_with item r)

Holds-delete :
    (l : LinkedList) (item a : ℕ) (items : Items)
    → IsList l items
    → first_with item items ≡ some a
    → (l' : LinkedList) × (delete a l ≡ ok l') × Holds l' (without item (values items))
Holds-delete l item a items i e =
    let s = first_with-Split item a items e in
    let (l', run, d) = delete-Deleted l s.before a item s.behind (subst (IsList l) s.parts i) in
    (l', run, (s.before ++ s.behind, d.list, sym s.rest))

without-has :
    (item : ℕ) (items : Items)
    → first_with item items ≡ none
    → without item (values items) ≡ values items
unfolding first_with without
without-has item [] e = refl
without-has item ((a, v) ∷ r) e = ground (arith, without-has item r)

-- several calls in turn, with their answers
unfoldable pub spec_all : List Call → List ℕ → Option (List Bool × List ℕ)
spec_all [] vs = some ([], vs)
spec_all (call ∷ calls) vs = elim (spec call vs) [
  | none ↦ none
  | some (vs, b) ↦ elim (spec_all calls vs) [ none ↦ none | some (bs, vs) ↦ some (b ∷ bs, vs) ]
]

unfoldable pub perform_all : List Call → LinkedList → Run (List Bool × LinkedList)
perform_all [] l = ok ([], l)
perform_all (call ∷ calls) l = do
  (l, b) ← perform call l
  (bs, l) ← perform_all calls l
  ok (b ∷ bs, l)

-- the calls did what the specification says
abbrev pub AllAgree : Run (List Bool × LinkedList) → Option (List Bool × List ℕ) → Type 0
AllAgree r none = r ≡ fault
AllAgree r (some (bs, vs)) = (l : LinkedList) × (r ≡ ok (bs, l)) × Holds l vs

length-spec_remove : (n : ℕ) (vs : List ℕ) → length (spec_remove n vs) ≤ length vs
unfolding spec_remove
length-spec_remove n [] = omega arith
length-spec_remove zero (v ∷ vs) = omega arith
length-spec_remove (suc n) (v ∷ vs) = omega (arith, length-spec_remove n vs)

length-without : (item : ℕ) (vs : List ℕ) → length (without item vs) ≤ length vs
unfolding without
length-without item [] = omega arith
length-without item (v ∷ vs) = ground (arith, length-without item vs)

first_part :
    {vs vs' : List ℕ} {b b' : Bool}
    → ◌≡◌ {A = Option (List ℕ × Bool)} (some (vs, b)) (some (vs', b'))
    → vs ≡ vs'
first_part e = cc e

length-spec :
    (call : Call) (vs vs' : List ℕ) (b : Bool)
    → spec call vs ≡ some (vs', b)
    → length vs' ≤ length vs + 1
unfolding spec
length-spec (insert_item a v) vs vs' b e =
    omega (arith, ap length (first_part e), length-append vs (v ∷ []))
length-spec (remove_index n) vs vs' b e = go (n == 1 && length vs == 1) e
  where
    go :
        (t : Bool)
        → if◌then◌else◌ {A = Option (List ℕ × Bool)} t none (some (spec_remove (n - 1) vs, true))
          ≡ some (vs', b)
        → length vs' ≤ length vs + 1
    go true e = cc e
    go false e = omega (arith, ap length (first_part e), length-spec_remove (n - 1) vs)
length-spec (find_item v) vs vs' b e = omega (arith, ap length (first_part e))
length-spec (delete_item v) vs vs' b e =
    omega (arith, ap length (first_part e), length-without v vs)

and_then :
    (b : Bool) (r : Run (List Bool × LinkedList)) (o : Option (List Bool × List ℕ))
    → AllAgree r o
    → AllAgree
        (do (bs, l) ← r; ok (b ∷ bs, l))
        (elim o [ none ↦ none | some (bs, vs) ↦ some (b ∷ bs, vs) ])
and_then b r none e = rw (e) refl
and_then b r (some (bs, vs)) (l, e, h) = (l, rw (e) refl, h)

first_then :
    (calls : List Call) (r : Run (LinkedList × Bool)) (o : Option (List ℕ × Bool))
    → Agrees r o
    → ((l : LinkedList) (vs : List ℕ) (b : Bool)
        → r ≡ ok (l, b)
        → o ≡ some (vs, b)
        → Holds l vs
        → AllAgree (perform_all calls l) (spec_all calls vs))
    → AllAgree
        (do (l, b) ← r; (bs, l) ← perform_all calls l; ok (b ∷ bs, l))
        (elim o [
          | none ↦ none
          | some (vs, b) ↦ elim (spec_all calls vs) [
            | none ↦ none
            | some (bs, vs) ↦ some (b ∷ bs, vs)
          ]
        ])
first_then calls r none e further = rw (e) refl
first_then calls r (some (vs, b)) (l, e, h) further =
    rw (e) (and_then b (perform_all calls l) (spec_all calls vs) (further l vs b e refl h))

one_item : (items : Items) → length items ≡ 1 → (a : ℕ) × (v : ℕ) × (items ≡ (a, v) ∷ [])
one_item [] e = absurd (omega (arith, e))
one_item ((a, v) ∷ []) e = (a, v, refl)
one_item (x ∷ y ∷ r) e = absurd (omega (arith, e))

-- the memory that kcalloc returns is free
abbrev pub IsFree : Call → LinkedList → Type 0
IsFree (insert_item a v) l = l.cells a ≡ none
IsFree (remove_index n) l = Unit
IsFree (find_item v) l = Unit
IsFree (delete_item v) l = Unit

-- in each call of several
unfoldable pub AreFree : List Call → LinkedList → Type 0
AreFree [] l = Unit
AreFree (call ∷ calls) l =
    IsFree call l × ((l' : LinkedList) (b : Bool) → perform call l ≡ ok (l', b) → AreFree calls l')

perform_insert :
    (l : LinkedList) (a v : ℕ) (items : Items)
    → IsList l items
    → l.cells a ≡ none
    → length items + 1 < 2 ^ 64
    → Agrees (perform (insert_item a v) l) (spec (insert_item a v) (values items))
unfolding perform spec
perform_insert l a v items i free h =
    let (l', run, r) =
      insert-Inserted l items a v i (free-Away a l none none items free i.linked) h in
    (l', rw (run) refl, (items ++ (a, v) ∷ [], r.list, values-append items ((a, v) ∷ [])))

perform_delete :
    (l : LinkedList) (v : ℕ) (items : Items)
    → IsList l items
    → Agrees (perform (delete_item v) l) (spec (delete_item v) (values items))
unfolding perform spec
perform_delete l v items i = rw (find-first_with v l items i) (go (first_with v items) refl)
  where
    go :
        (o : Option ℕ)
        → first_with v items ≡ o
        → Agrees (delete_found o l) (some (without v (values items), has v (values items)))
    go none e = (
      l,
      ap (λ b. ok (l, b)) (sym (has-first_with v items ∙ ap is_some e)),
      (items, i, sym (without-has v items e)),
    )
    go (some a) e =
        let (l', run, h) = Holds-delete l v a items i e in
        (l', rw (run) (ap (λ b. ok (l', b)) (sym (has-first_with v items ∙ ap is_some e))), h)

perform_remove :
    (l : LinkedList) (n : ℕ) (items : Items)
    → IsList l items
    → Agrees (perform (remove_index n) l) (spec (remove_index n) (values items))
unfolding perform spec
perform_remove l n items i = go (n == 1) refl (length (values items) == 1) refl
  where
    went_well :
        (n ≢ 1) ⊎ (length items ≢ 1)
        → Agrees (perform (remove_index n) l) (some (spec_remove (n - 1) (values items), true))
    went_well h =
        let (l', run, j) = remove_by_index-Leaves n l items i h in
        (l', rw (run) refl, (drop_at (n - 1) items, j, values-drop_at (n - 1) items))

    go :
        (b : Bool)
        → (n == 1) ≡ b
        → (c : Bool) → (length (values items) == 1) ≡ c
        → Agrees
            (perform (remove_index n) l)
            (if b && c then none else some (spec_remove (n - 1) (values items), true))
    go true p true q =
        let (a, v, e) =
          one_item items (sym (length-values items) ∙ (==_iff (length (values items)) 1).0 q) in
        rw
          (ap (λ k. remove_by_index k l) ((==_iff n 1).0 p)
            ∙ remove_by_index-faults l a v (subst (IsList l) e i))
          refl
    go true p false q =
        went_well
          (inr (λ e. cc ((==_iff (length (values items)) 1).1 (length-values items ∙ e), q)))
    go false p c q = went_well (inl (λ e. cc ((==_iff n 1).1 e, p)))

perform_find :
    (l : LinkedList) (v : ℕ) (items : Items)
    → IsList l items
    → Agrees (perform (find_item v) l) (spec (find_item v) (values items))
unfolding perform spec
perform_find l v items i = (
  l,
  rw (find-first_with v l items i) (ap (λ b. ok (l, b)) (sym (has-first_with v items))),
  (items, i, refl),
)

-- a call agrees with the specification
perform-Agrees :
    (call : Call) (l : LinkedList) (items : Items)
    → IsList l items
    → IsFree call l
    → length items + 1 < 2 ^ 64
    → Agrees (perform call l) (spec call (values items))
perform-Agrees (insert_item a v) l items i free h = perform_insert l a v items i free h
perform-Agrees (remove_index n) l items i free h = perform_remove l n items i
perform-Agrees (delete_item v) l items i free h = perform_delete l v items i
perform-Agrees (find_item v) l items i free h = perform_find l v items i

run_at :
    (calls : List Call) (l : LinkedList) (items : Items)
    → IsList l items
    → AreFree calls l
    → length items + length calls < 2 ^ 64
    → AllAgree (perform_all calls l) (spec_all calls (values items))
unfolding perform_all spec_all AreFree
run_at [] l items i free h = (l, refl, (items, i, refl))
run_at (call ∷ calls) l items i (free, later) h =
    first_then calls (perform call l) (spec call (values items))
      (perform-Agrees call l items i free (omega (arith, h)))
      λ l' vs b run e (items', i', q).
        subst (λ vs. AllAgree (perform_all calls l') (spec_all calls vs)) q
          (run_at calls l' items' i' (later l' b run) (
            omega (
              arith,
              h,
              length-spec call (values items) vs b e,
              length-values items,
              length-values items',
              ap length q,
            )))

-- If kcalloc returns free memory, any sequence of calls on a list that holds some values, with fewer
-- than 2^64 values and calls, answers call by call as the sequence of the values answers, and leaves
-- a well linked list of what is left of it, up to a call that faults for both.
pub run_refines_sequence :
    (calls : List Call) (l : LinkedList) (vs : List ℕ)
    → Holds l vs
    → AreFree calls l
    → length vs + length calls < 2 ^ 64
    → AllAgree (perform_all calls l) (spec_all calls vs)
run_refines_sequence calls l vs (items, i, e) free h =
    subst (λ vs. AllAgree (perform_all calls l) (spec_all calls vs)) e
      (run_at calls l items i free (omega (arith, h, length-values items, ap length e)))
