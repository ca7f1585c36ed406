-- ===== src/LinkedList/Insert.antt =====
-- `list_append`, `list_insert` and the insertions beside an entry, on a list that is well linked.
use night_os.Base.{
  ℕ, ◌+◌, ◌%◌, ◌^◌, ◌<◌, ◌≡◌, ◌≢◌, refl, sym, ap, ◌∙◌, none, some, [], ◌∷◌, ◌++◌, arith, ◌==◌, inl,
  inr, ◌⊎◌, false, length, length-append, append-nil, ok, Returns,
}
use mathlib.Core.Path.{subst}
use night_os.LinkedList.{Entry, LinkedList, write, append_behind, append, new_entry, insert}
use night_os.LinkedList.Chain.{
  Items, last_or, Seg, Away, Distinct, write_self, write_other, head_or-append, last_or-append,
  Seg-append, append-Seg, Seg-write, Seg-next, Away-append, Distinct-middle, Distinct-insert,
  last_view,
}
use night_os.LinkedList.Delete.{IsList, Keeps, store_prev_lem, store_next_lem}

-- the list of before with the entry `a` between two parts, and no other entry written to
pub record Inserted (l : LinkedList) (xs : Items) (a v : ℕ) (ys : Items) (l' : LinkedList)
    : Type 0 where
  pub list : IsList l' (xs ++ (a, v) ∷ ys)
  pub keeps : Keeps (xs ++ (a, v) ∷ ys) l.cells l'.cells

-- an entry that is not in the list yet
abbrev pub unlinked : ℕ → Entry
unlinked v = record { prev = none; next = none; value = v }

append_first :
    (l : LinkedList) (a v : ℕ)
    → IsList l []
    → l.cells a ≡ some (unlinked v)
    → Returns (append a l) (Inserted l [] a v [])
unfolding append Seg Distinct Away
append_first l a v i e = (
  record l { head = some a; tail = some a; length = 1 },
  rw (i.counted) refl,
  record {
    list = record {
      starts = refl;
      ends = refl;
      counted = refl;
      fits = omega arith;
      linked = (e, tt);
      distinct = (tt, tt);
    };
    keeps = λ b f. refl;
  },
)

not_zero : (n : ℕ) → n ≢ 0 → (n == 0) ≡ false
not_zero n h = ground arith

longer : (xs ys : Items) (a v : ℕ) → length (xs ++ (a, v) ∷ ys) ≡ length (xs ++ ys) + 1
longer xs ys a v = omega (arith, length-append xs ((a, v) ∷ ys), length-append xs ys)

append_run :
    (l : LinkedList) (t a : ℕ) (e f : Entry)
    → l.length ≢ 0
    → l.tail ≡ some t
    → l.cells t ≡ some e
    → write l.cells t (some (record e { next = some a })) a ≡ some f
    → append a l
      ≡ ok (record l {
        tail = some a;
        length = (l.length + 1) % 2 ^ 64;
        cells =
            write
              (write l.cells t (some (record e { next = some a })))
              a
              (some (record f { prev = some t }));
      })
unfolding append append_behind
append_run l t a e f n q h k =
    let c = write l.cells t (some (record e { next = some a })) in
    rw (not_zero l.length n) (
      ap (λ o. append_behind o a l) q
      ∙ rw (store_next_lem t (some a) l e h)
          (rw (store_prev_lem a (some t) (record l { cells = c }) f k) refl))

append_next :
    (l : LinkedList) (xs : Items) (t u a v : ℕ)
    → IsList l (xs ++ (t, u) ∷ [])
    → l.cells a ≡ some (unlinked v)
    → Away a (xs ++ (t, u) ∷ [])
    → length (xs ++ (t, u) ∷ []) + 1 < 2 ^ 64
    → Returns (append a l) (Inserted l (xs ++ (t, u) ∷ []) a v [])
unfolding append append_behind Seg Distinct Away
append_next l xs t u a v i e w h =
    let items = xs ++ (t, u) ∷ [] in
    let before = Seg-append l.cells none none xs ((t, u) ∷ []) i.linked in
    let c = write l.cells t (some (record { prev = last_or xs none; next = some a; value = u })) in
    let away = Away-append a xs ((t, u) ∷ []) w in
    let last_t : last_or items none ≡ some t = last_or-append xs ((t, u) ∷ []) none in
    let new : Entry = record { prev = some t; next = none; value = v } in
    (
      record l { tail = some a; length = (l.length + 1) % 2 ^ 64; cells = write c a (some new) },
      append_run l t a _ _ (omega (arith, i.counted, length-append xs ((t, u) ∷ [])))
          (i.ends ∙ last_t) before.1.0 (write_other l.cells t a _ away.1.0 ∙ e),
      record {
        list = record {
          starts =
              i.starts
              ∙ head_or-append xs ((t, u) ∷ []) none
              ∙ sym (
                  head_or-append items ((a, v) ∷ []) none
                  ∙ head_or-append xs ((t, u) ∷ []) (some a));
          ends = sym (last_or-append items ((a, v) ∷ []) none);
          counted = omega (arith, longer items [] a v, ap length (append-nil items), i.counted, h);
          fits = omega (arith, longer items [] a v, ap length (append-nil items), h);
          linked =
              append-Seg (write c a (some new)) none none items ((a, v) ∷ [])
                (Seg-write c none (some a) a _ items w (
                  Seg-next l.cells none none (some a) xs t u
                    (Distinct-middle xs t u [] i.distinct).0 i.linked))
                (subst (λ o. Seg (write c a (some new)) o ((a, v) ∷ []) none) (sym last_t)
                  (write_self c a (some new), tt));
          distinct =
              Distinct-insert items a v [] (rw (append-nil items) w)
                (rw (append-nil items) i.distinct);
        };
        keeps = λ b f.
            let off = Away-append b items ((a, v) ∷ []) f in
            write_other c a b _ off.1.0
            ∙ write_other l.cells t b _ (Away-append b xs ((t, u) ∷ []) off.0).1.0;
      },
    )

pub append-Inserted :
    (l : LinkedList) (items : Items) (a v : ℕ)
    → IsList l items
    → l.cells a ≡ some (unlinked v)
    → Away a items
    → length items + 1 < 2 ^ 64
    → Returns (append a l) (Inserted l items a v [])
append-Inserted l items a v i e w h = go (last_view items)
  where
    go :
        (items ≡ []) ⊎ ((xs : Items) × (t : ℕ) × (u : ℕ) × (items ≡ xs ++ (t, u) ∷ []))
        → Returns (append a l) (Inserted l items a v [])
    go (inl q) =
        subst (λ r. Returns (append a l) (Inserted l r a v [])) (sym q)
          (append_first l a v (subst (IsList l) q i) e)
    go (inr (xs, t, u, q)) =
        subst (λ r. Returns (append a l) (Inserted l r a v [])) (sym q)
          (append_next l xs t u a v (subst (IsList l) q i) e (subst (Away a) q w)
            (subst (λ r. length r + 1 < 2 ^ 64) q h))

-- `list_insert` with a new entry puts its item behind the others and writes to no other memory.
pub insert-Inserted :
    (l : LinkedList) (items : Items) (a v : ℕ)
    → IsList l items
    → Away a items
    → length items + 1 < 2 ^ 64
    → Returns (insert a v l) (Inserted l items a v [])
unfolding insert Away
insert-Inserted l items a v i w h =
    let fresh : IsList (new_entry a v l) items = record {
      starts = i.starts;
      ends = i.ends;
      counted = i.counted;
      fits = i.fits;
      linked = Seg-write l.cells none none a (some (unlinked v)) items w i.linked;
      distinct = i.distinct;
    } in
    let (l', run, r) =
      append-Inserted (new_entry a v l) items a v fresh (write_self l.cells a (some (unlinked v))) w
        h in
    (
      l',
      run,
      record {
        list = r.list;
        keeps = λ b f.
            r.keeps b f ∙ write_other l.cells a b _ (Away-append b items ((a, v) ∷ []) f).1.0;
      },
    )
