-- ===== src/LinkedList/Delete.antt =====
-- `list_delete` on a list that is well linked.
use night_os.Base.{
  ℕ, ◌+◌, ◌-◌, ◌%◌, ◌^◌, ◌<◌, ◌≡◌, ◌≢◌, refl, sym, ap, ◌∙◌, Option, none, some, [], ◌∷◌, ◌++◌,
  arith, if◌then◌else◌, inl, inr, ◌⊎◌, ==_iff, false, length, length-append, append_assoc,
  append-nil, Run, ok, fault, Returns, ◌>>=◌,
}
use mathlib.Core.Path.{subst}
use night_os.LinkedList.{
  Entry, Cells, LinkedList, write, load, store_prev, store_next, relink, is_at, delete,
}
use night_os.LinkedList.Chain.{
  Items, head_or, last_or, Seg, Away, Distinct, write_self, write_other, last_or-append, Seg-append,
  append-Seg, Seg-write, Seg-prev, Seg-next, Away-append, append-Away, Distinct-middle,
  Distinct-drop, last_view,
}

-- the list holds these entries, in order, each linked to the ones beside it
pub record IsList (l : LinkedList) (items : Items) : Type 0 where
  pub starts : l.head ≡ head_or items none
  pub ends : l.tail ≡ last_or items none
  pub counted : l.length ≡ length items
  pub fits : length items < 2 ^ 64
  pub linked : Seg l.cells none items none
  pub distinct : Distinct items

pub load_lem : (a : ℕ) (l : LinkedList) (e : Entry) → l.cells a ≡ some e → load a l ≡ ok e
unfolding load
load_lem a l e h = ap (λ o. elim o as (λ x. Run Entry) [ none ↦ fault | some e ↦ ok e ]) h

pub store_prev_lem :
    (a : ℕ) (q : Option ℕ) (l : LinkedList) (e : Entry)
    → l.cells a ≡ some e
    → store_prev a q l ≡ ok (record l { cells = write l.cells a (some (record e { prev = q })) })
unfolding store_prev
store_prev_lem a q l e h =
    ap
      (λ r. r >>= λ (e : Entry).
        ok (record l { cells = write l.cells a (some (record e { prev = q })) }))
      (load_lem a l e h)

pub store_next_lem :
    (a : ℕ) (q : Option ℕ) (l : LinkedList) (e : Entry)
    → l.cells a ≡ some e
    → store_next a q l ≡ ok (record l { cells = write l.cells a (some (record e { next = q })) })
unfolding store_next
store_next_lem a q l e h =
    ap
      (λ r. r >>= λ (e : Entry).
        ok (record l { cells = write l.cells a (some (record e { next = q })) }))
      (load_lem a l e h)

-- the call links the two parts of the chain with one another, and writes to no other entry
pub record Relinked (l : LinkedList) (xs ys : Items) (r : Run LinkedList) : Type 0 where
  pub after : Cells
  pub returned : r ≡ ok (record l { cells = after })
  pub front : Seg after none xs (head_or ys none)
  pub back : Seg after (last_or xs none) ys none
  pub others : (b : ℕ) → Away b (xs ++ ys) → after b ≡ l.cells b

relink_back :
    (l : LinkedList) (n w a : ℕ) (zs : Items)
    → Seg l.cells (some a) ((n, w) ∷ zs) none
    → Distinct ((n, w) ∷ zs)
    → Relinked l [] ((n, w) ∷ zs) (relink none (some n) l)
unfolding relink Seg Distinct Away
relink_back l n w a zs s d = record {
  after = write l.cells n (some (record { prev = none; next = head_or zs none; value = w }));
  returned = store_prev_lem n none l _ s.0;
  front = tt;
  back = Seg-prev l.cells (some a) none none n w zs d.0 s;
  others = λ b f. write_other l.cells n b _ f.0;
}

relink_front :
    (l : LinkedList) (xs : Items) (p u a : ℕ)
    → Seg l.cells none (xs ++ (p, u) ∷ []) (some a)
    → Distinct (xs ++ (p, u) ∷ [])
    → Relinked l (xs ++ (p, u) ∷ []) [] (relink (some p) none l)
unfolding relink Seg Away
relink_front l xs p u a s d = record {
  after = write l.cells p (some (record { prev = last_or xs none; next = none; value = u }));
  returned = store_next_lem p none l _ (Seg-append l.cells none (some a) xs ((p, u) ∷ []) s).1.0;
  front = Seg-next l.cells none (some a) none xs p u (Distinct-middle xs p u [] d).0 s;
  back = tt;
  others = λ b f.
      write_other l.cells p b _
        (Away-append b xs ((p, u) ∷ []) (Away-append b (xs ++ (p, u) ∷ []) [] f).0).1.0;
}

relink_both :
    (l : LinkedList) (xs : Items) (p u n w a : ℕ) (zs : Items)
    → Seg l.cells none (xs ++ (p, u) ∷ []) (some a)
    → Seg l.cells (some a) ((n, w) ∷ zs) none
    → Distinct ((xs ++ (p, u) ∷ []) ++ (n, w) ∷ zs)
    → Relinked l (xs ++ (p, u) ∷ []) ((n, w) ∷ zs) (relink (some p) (some n) l)
unfolding relink Seg Away
relink_both l xs p u n w a zs s t d =
    let before = Distinct-middle (xs ++ (p, u) ∷ []) n w zs d in
    let around =
      Distinct-middle xs p u ((n, w) ∷ zs) (rw (← append_assoc xs ((p, u) ∷ []) ((n, w) ∷ zs)) d) in
    let c = write l.cells n (some (record { prev = some p; next = head_or zs none; value = w })) in
    let at_p = (Seg-append l.cells none (some a) xs ((p, u) ∷ []) s).1.0 in
    let last_p : last_or (xs ++ (p, u) ∷ []) none ≡ some p = last_or-append xs ((p, u) ∷ []) none in
    record {
      after = write c p (some (record { prev = last_or xs none; next = some n; value = u }));
      returned = rw (store_prev_lem n (some p) l _ t.0) (
          store_next_lem p (some n) (record l { cells = c }) _
            (write_other l.cells n p _ around.1.0 ∙ at_p));
      front =
          Seg-next c none (some a) (some n) xs p u around.0
            (Seg-write l.cells none (some a) n _ (xs ++ (p, u) ∷ []) before.0 s);
      back = rw last_p (
          Seg-write c (some p) none p _ ((n, w) ∷ zs) around.1
            (Seg-prev l.cells (some a) none (some p) n w zs before.1 t));
      others = λ b f.
          let parts = Away-append b (xs ++ (p, u) ∷ []) ((n, w) ∷ zs) f in
          write_other c p b _ (Away-append b xs ((p, u) ∷ []) parts.0).1.0
          ∙ write_other l.cells n b _ parts.1.0;
    }

pub relink-Relinked :
    (l : LinkedList) (xs ys : Items) (a : ℕ)
    → Seg l.cells none xs (some a)
    → Seg l.cells (some a) ys none
    → Distinct (xs ++ ys)
    → Relinked l xs ys (relink (last_or xs none) (head_or ys none) l)
unfolding relink Seg
relink-Relinked l xs ys a s t d = go (last_view xs) ys s t d
  where
    Claim : Items → Items → Type 0
    Claim xs ys =
        Seg l.cells none xs (some a)
        → Seg l.cells (some a) ys none
        → Distinct (xs ++ ys)
        → Relinked l xs ys (relink (last_or xs none) (head_or ys none) l)

    empty : (ys : Items) → Claim [] ys
    empty [] s t d = record {
      after = l.cells;
      returned = refl;
      front = tt;
      back = tt;
      others = λ b f. refl;
    }
    empty ((n, w) ∷ zs) s t d = relink_back l n w a zs t d

    snoc : (xs : Items) (p u : ℕ) (ys : Items) → Claim (xs ++ (p, u) ∷ []) ys
    snoc xs p u [] s t d =
        subst (λ o. Relinked l (xs ++ (p, u) ∷ []) [] (relink o none l))
          (sym (last_or-append xs ((p, u) ∷ []) none))
          (relink_front l xs p u a s (subst Distinct (append-nil (xs ++ (p, u) ∷ [])) d))
    snoc xs p u ((n, w) ∷ zs) s t d =
        subst (λ o. Relinked l (xs ++ (p, u) ∷ []) ((n, w) ∷ zs) (relink o (some n) l))
          (sym (last_or-append xs ((p, u) ∷ []) none)) (relink_both l xs p u n w a zs s t d)

    go :
        (xs ≡ []) ⊎ ((zs : Items) × (b : ℕ) × (w : ℕ) × (xs ≡ zs ++ (b, w) ∷ []))
        → (ys : Items) → Claim xs ys
    go (inl e) ys = subst (λ r. Claim r ys) (sym e) (empty ys)
    go (inr (zs, b, w, e)) ys = subst (λ r. Claim r ys) (sym e) (snoc zs b w ys)

-- the memory that the list does not use
abbrev pub Keeps : Items → Cells → Cells → Type 0
Keeps items c c' = (b : ℕ) → Away b items → c' b ≡ c b

head_after :
    (xs : Items) (a v : ℕ) (ys : Items)
    → Away a xs
    → (if is_at (head_or (xs ++ (a, v) ∷ ys) none) a
        then head_or ys none
        else head_or (xs ++ (a, v) ∷ ys) none)
      ≡ head_or (xs ++ ys) none
unfolding Away
head_after [] a v ys w = rw ((==_iff a a).1 refl) refl
head_after ((b, u) ∷ xs) a v ys w = ground arith

last_other : (ys : Items) (a b : ℕ) → b ≢ a → Away a ys → is_at (last_or ys (some b)) a ≡ false
unfolding Away
last_other [] a b n w = ground arith
last_other ((c, u) ∷ ys) a b n (ne, w) = last_other ys a c (λ q. ne (sym q)) w

tail_after :
    (xs : Items) (a v : ℕ) (ys : Items)
    → Away a ys
    → (if is_at (last_or (xs ++ (a, v) ∷ ys) none) a
        then last_or xs none
        else last_or (xs ++ (a, v) ∷ ys) none)
      ≡ last_or (xs ++ ys) none
unfolding Away
tail_after xs a v ys w =
    rw (last_or-append xs ((a, v) ∷ ys) none, last_or-append xs ys none) (go ys (last_or xs none) w)
  where
    go :
        (ys : Items) (p : Option ℕ)
        → Away a ys
        → (if is_at (last_or ys (some a)) a then p else last_or ys (some a)) ≡ last_or ys p
    go [] p w = rw ((==_iff a a).1 refl) refl
    go ((b, u) ∷ ys) p (ne, w) = rw (last_other ys a b (λ q. ne (sym q)) w) refl

-- what `list_delete` leaves where the entry `a` stood between two others
pub record Deleted (l : LinkedList) (xs : Items) (a v : ℕ) (ys : Items) (l' : LinkedList)
    : Type 0 where
  pub list : IsList l' (xs ++ ys)
  pub freed : l'.cells a ≡ none
  pub keeps : Keeps (xs ++ (a, v) ∷ ys) l.cells l'.cells

shorter :
    (xs : Items) (a v : ℕ) (ys : Items) (n : ℕ)
    → n ≡ length (xs ++ (a, v) ∷ ys)
    → n < 2 ^ 64
    → (n + 2 ^ 64 - 1) % 2 ^ 64 ≡ length (xs ++ ys)
shorter xs a v ys n e h = omega (arith, length-append xs ((a, v) ∷ ys), length-append xs ys)

pub delete-Deleted :
    (l : LinkedList) (xs : Items) (a v : ℕ) (ys : Items)
    → IsList l (xs ++ (a, v) ∷ ys)
    → Returns (delete a l) (Deleted l xs a v ys)
unfolding delete Seg Away
delete-Deleted l xs a v ys i =
    let parts = Seg-append l.cells none none xs ((a, v) ∷ ys) i.linked in
    let away = Distinct-middle xs a v ys i.distinct in
    let e : Entry = record { prev = last_or xs none; next = head_or ys none; value = v } in
    let l1 : LinkedList = record l {
      head = if is_at l.head a then head_or ys none else l.head;
      tail = if is_at l.tail a then last_or xs none else l.tail;
    } in
    let r = relink-Relinked l1 xs ys a parts.0 parts.1.1 (Distinct-drop xs a v ys i.distinct) in
    (
      record l1 { cells = write r.after a none; length = (l.length + 2 ^ 64 - 1) % 2 ^ 64 },
      rw (load_lem a l e parts.1.0) (rw (r.returned) refl),
      record {
        list = record {
          starts = rw (i.starts) (head_after xs a v ys away.0);
          ends = rw (i.ends) (tail_after xs a v ys away.1);
          counted = shorter xs a v ys l.length i.counted (omega (arith, i.counted, i.fits));
          fits = omega (arith, length-append xs ((a, v) ∷ ys), length-append xs ys, i.fits);
          linked =
              append-Seg (write r.after a none) none none xs ys
                (Seg-write r.after none (head_or ys none) a none xs away.0 r.front)
                (Seg-write r.after (last_or xs none) none a none ys away.1 r.back);
          distinct = Distinct-drop xs a v ys i.distinct;
        };
        freed = write_self r.after a none;
        keeps = λ b f.
            let off = Away-append b xs ((a, v) ∷ ys) f in
            write_other r.after a b none off.1.0 ∙ r.others b (append-Away b xs ys off.0 off.1.1);
      },
    )
