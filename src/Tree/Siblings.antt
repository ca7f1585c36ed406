-- ===== src/Tree/Siblings.antt =====
-- The children of a node after an insertion, a change and a deletion.
use night_os.Base.{ℕ, zero, suc, ◌≡◌, ◌≢◌, refl, none, some, arith}
use night_os.Tree.{Node, Children, leaf, child, nth, count, append, update}

pub nth-count : (cs : Children) → nth (count cs) cs ≡ none
nth-count leaf = refl
nth-count (child n cs) = nth-count cs

pub nth-append_new : (cs : Children) → (n : Node) → nth (count cs) (append cs n) ≡ some n
nth-append_new leaf n = refl
nth-append_new (child m cs) n = nth-append_new cs n

pub nth-append_old :
    (j : ℕ) → (cs : Children) → (n : Node) → j ≢ count cs → nth j (append cs n) ≡ nth j cs
nth-append_old zero leaf n ne = elim (ne refl) [ ]
nth-append_old (suc j) leaf n ne = refl
nth-append_old zero (child m cs) n ne = refl
nth-append_old (suc j) (child m cs) n ne = nth-append_old j cs n (omega arith)

pub nth-update_same :
    (i : ℕ)
    → (f : Node → Node) → (cs : Children) → (c : Node) → nth i cs ≡ some c
    → nth i (update i f cs) ≡ some (f c)
nth-update_same i f leaf c e = ground arith
nth-update_same zero f (child n cs) c e = ground arith
nth-update_same (suc i) f (child n cs) c e = nth-update_same i f cs c e

pub nth-update_other :
    (j i : ℕ) → (f : Node → Node) → (cs : Children) → j ≢ i → nth j (update i f cs) ≡ nth j cs
nth-update_other j i f leaf ne = refl
nth-update_other zero zero f (child n cs) ne = elim (ne refl) [ ]
nth-update_other zero (suc i) f (child n cs) ne = refl
nth-update_other (suc j) zero f (child n cs) ne = refl
nth-update_other (suc j) (suc i) f (child n cs) ne = nth-update_other j i f cs (omega arith)
