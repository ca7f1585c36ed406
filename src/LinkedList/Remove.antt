-- ===== src/LinkedList/Remove.antt =====
-- `list_remove_by_index` and `list_find`, on a list that is well linked.
use night_os.Base.{
  ℕ, zero, suc, ◌+◌, ◌-◌, ◌≤◌, ◌≡◌, ◌≢◌, refl, sym, ap, ◌∙◌, false, none, some, [], ◌∷◌, ◌++◌,
  arith, ◌==◌, if◌then◌else◌, inl, inr, ◌⊎◌, Bool-cases, ==_iff, length, length-append,
  append_assoc, append-nil, Run, ok, fault, Returns, ◌>>=◌,
}
use mathlib.Core.Path.{subst}
use night_os.LinkedList.{LinkedList, load, delete_at, remove_from, remove_by_index}
use night_os.LinkedList.Chain.{Items, head_or, last_or, Seg, Seg-append, last_or-append, last_view}
use night_os.LinkedList.Delete.{IsList, load_lem, delete-Deleted}

-- the entries without the one at a position
abbrev pub drop_at : ℕ → Items → Items
drop_at n [] = []
drop_at zero (x ∷ xs) = xs
drop_at (suc n) (x ∷ xs) = x ∷ drop_at n xs

-- the entry behind the first `xs`
pub at_entry :
    (l : LinkedList) (xs : Items) (a v : ℕ) (ys : Items)
    → IsList l (xs ++ (a, v) ∷ ys)
    → load a l ≡ ok (record { prev = last_or xs none; next = head_or ys none; value = v })
unfolding Seg
at_entry l xs a v ys i = load_lem a l _ (Seg-append l.cells none none xs ((a, v) ∷ ys) i.linked).1.0

abbrev pub Leaves : Run LinkedList → Items → Type 0
Leaves r items = Returns r (λ l. IsList l items)

remove_from-Leaves :
    (rounds : ℕ) (l : LinkedList) (xs : Items) (a v : ℕ) (ys : Items)
    → IsList l (xs ++ (a, v) ∷ ys)
    → Leaves (remove_from rounds (some a) l) (xs ++ drop_at rounds ((a, v) ∷ ys))
unfolding remove_from
remove_from-Leaves zero l xs a v ys i =
    let (l', run, d) = delete-Deleted l xs a v ys i in (l', run, d.list)
remove_from-Leaves (suc rounds) l xs a v [] i = (l, rw (at_entry l xs a v [] i) refl, i)
remove_from-Leaves (suc rounds) l xs a v ((b, w) ∷ ys) i =
    let more : IsList l ((xs ++ (a, v) ∷ []) ++ (b, w) ∷ ys) =
      rw (append_assoc xs ((a, v) ∷ []) ((b, w) ∷ ys)) i in
    let (l', run, j) = remove_from-Leaves rounds l (xs ++ (a, v) ∷ []) b w ys more in
    (
      l',
      rw (at_entry l xs a v ((b, w) ∷ ys) i) run,
      subst (IsList l') (append_assoc xs ((a, v) ∷ []) (drop_at rounds ((b, w) ∷ ys))) j,
    )

pub nonzero : (n : ℕ) → n ≢ 0 → (n == 0) ≡ false
nonzero n h = ground arith

drop_at_long : (n : ℕ) (xs : Items) → length xs ≤ n → drop_at n xs ≡ xs
drop_at_long n [] h = refl
drop_at_long zero (x ∷ xs) h = absurd (omega arith)
drop_at_long (suc n) (x ∷ xs) h = ap (λ r. x ∷ r) (drop_at_long n xs (omega arith))

drop_at_last : (ys : Items) (x : ℕ × ℕ) → drop_at (length ys) (ys ++ x ∷ []) ≡ ys
drop_at_last [] x = refl
drop_at_last (y ∷ ys) x = ap (λ r. y ∷ r) (drop_at_last ys x)

remove_from_head :
    (rounds : ℕ) (l : LinkedList) (a v : ℕ) (ys : Items)
    → IsList l ((a, v) ∷ ys)
    → Leaves (remove_from rounds l.head l) (drop_at rounds ((a, v) ∷ ys))
remove_from_head rounds l a v ys i =
    subst (λ p. Leaves (remove_from rounds p l) (drop_at rounds ((a, v) ∷ ys))) (sym i.starts)
      (remove_from-Leaves rounds l [] a v ys i)

delete_head :
    (l : LinkedList) (a v : ℕ) (ys : Items)
    → IsList l ((a, v) ∷ ys)
    → Leaves (delete_at l.head l) ys
delete_head l a v ys i =
    subst (λ p. Leaves (delete_at p l) ys) (sym i.starts)
      (let (l', run, d) = delete-Deleted l [] a v ys i in (l', run, d.list))

delete_tail :
    (l : LinkedList) (ys : Items) (b w : ℕ)
    → IsList l (ys ++ (b, w) ∷ [])
    → Leaves (delete_at l.tail l) ys
delete_tail l ys b w i =
    subst (λ p. Leaves (delete_at p l) ys) (sym (i.ends ∙ last_or-append ys ((b, w) ∷ []) none))
      (let (l', run, d) = delete-Deleted l ys b w [] i in
        (l', run, subst (IsList l') (append-nil ys) d.list))

-- the deletion of the tail, and the loop over what is left, which then comes to the end
remove_last :
    (index : ℕ) (l : LinkedList) (a v : ℕ) (ys : Items) (b w : ℕ)
    → IsList l (((a, v) ∷ ys) ++ (b, w) ∷ [])
    → index ≡ length ys + 2
    → Leaves
        (do
          l ← delete_at l.tail l
          if index == 0 then delete_at l.head l else remove_from (index - 1) l.head l)
        (drop_at (index - 1) (((a, v) ∷ ys) ++ (b, w) ∷ []))
remove_last index l a v ys b w i e =
    let (l1, run, j) = delete_tail l ((a, v) ∷ ys) b w i in
    let (l2, more, k) = remove_from_head (index - 1) l1 a v ys j in
    let same : drop_at (index - 1) ((a, v) ∷ ys) ≡ (a, v) ∷ ys =
      drop_at_long (index - 1) ((a, v) ∷ ys) (omega (arith, e)) in
    let gone : drop_at (index - 1) (((a, v) ∷ ys) ++ (b, w) ∷ []) ≡ (a, v) ∷ ys =
      ap (λ n. drop_at n (((a, v) ∷ ys) ++ (b, w) ∷ [])) {x = index - 1} {y = suc (length ys)}
        (omega (arith, e))
      ∙ drop_at_last ((a, v) ∷ ys) (b, w) in
    (
      l2,
      rw (run) (rw (nonzero index (omega (arith, e))) more),
      subst (IsList l2) (same ∙ sym gone) k,
    )

remove_other :
    (index : ℕ) (l : LinkedList) (a v : ℕ) (ys : Items)
    → IsList l ((a, v) ∷ ys)
    → Leaves
        (if index == 0 then delete_at l.head l else remove_from (index - 1) l.head l)
        (drop_at (index - 1) ((a, v) ∷ ys))
remove_other zero l a v ys i = delete_head l a v ys i
remove_other (suc index) l a v ys i = rw (nonzero (suc index) (omega arith)) (
    subst (λ n. Leaves (remove_from n l.head l) (drop_at n ((a, v) ∷ ys))) {x = index}
      {y = suc index - 1} (omega arith) (remove_from_head index l a v ys i))

-- the end of a list of more than one entry
ends_in :
    (index : ℕ) (l : LinkedList) (a v : ℕ) (ys : Items)
    → IsList l ((a, v) ∷ ys)
    → index ≡ suc (length ys)
    → index ≢ 1
    → (ys ≡ []) ⊎ ((zs : Items) × (b : ℕ) × (w : ℕ) × (ys ≡ zs ++ (b, w) ∷ []))
    → Leaves
        (do
          l ← delete_at l.tail l
          if index == 0 then delete_at l.head l else remove_from (index - 1) l.head l)
        (drop_at (index - 1) ((a, v) ∷ ys))
ends_in index l a v ys i e n (inl q) = absurd (n (omega (arith, e, ap length q)))
ends_in index l a v ys i e n (inr (zs, b, w, q)) =
    subst
      (λ r.
        Leaves
          (do
            l ← delete_at l.tail l
            if index == 0 then delete_at l.head l else remove_from (index - 1) l.head l)
          (drop_at (index - 1) ((a, v) ∷ r)))
      (sym q)
      (remove_last index l a v zs b w (subst (λ r. IsList l ((a, v) ∷ r)) q i)
        (omega (arith, e, ap length q, length-append zs ((b, w) ∷ []))))

not_one :
    (index : ℕ) (ys : Items)
    → (index ≢ 1) ⊎ (suc (length ys) ≢ 1)
    → index ≡ suc (length ys)
    → index ≢ 1
not_one index ys (inl n) e = n
not_one index ys (inr n) e = λ q. n (sym e ∙ q)

-- `list_remove_by_index` takes out the entry of the index, counted from 1, or the first one for
-- index 0, and none where the index is too large, if not the index and the length are both 1.
pub remove_by_index-Leaves :
    (index : ℕ) (l : LinkedList) (items : Items)
    → IsList l items
    → (index ≢ 1) ⊎ (length items ≢ 1)
    → Leaves (remove_by_index index l) (drop_at (index - 1) items)
unfolding remove_by_index
remove_by_index-Leaves index l [] i n = (l, rw (i.counted) refl, i)
remove_by_index-Leaves index l ((a, v) ∷ ys) i n =
    let some_entry = nonzero l.length (omega (arith, i.counted)) in
    elim (Bool-cases (index == l.length)) [
      | inl e ↦
          let at_end : index ≡ suc (length ys) = (==_iff index l.length).0 e ∙ i.counted in
          rw (some_entry, e)
            (ends_in index l a v ys i at_end (not_one index ys n at_end) (last_view ys))
      | inr e ↦ rw (some_entry, e) (remove_other index l a v ys i)
    ]

-- For index 1 and a list of one entry `list_remove_by_index` deletes the entry and then reads NULL.
pub remove_by_index-faults :
    (l : LinkedList) (a v : ℕ) → IsList l ((a, v) ∷ []) → remove_by_index 1 l ≡ fault
unfolding remove_by_index remove_from
remove_by_index-faults l a v i =
    let (l1, run, j) = delete_tail l [] a v i in
    rw
      (
        nonzero l.length (omega (arith, i.counted)),
        (==_iff 1 l.length).1 (sym i.counted),
        run,
        j.starts,
      )
      refl
