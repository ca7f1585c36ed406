-- ===== src/LinkedList/Chain.antt =====
-- Chains of entries in memory.
use night_os.Base.{
  ℕ, ◌≡◌, ◌≢◌, refl, sym, ap, ◌∙◌, Option, some, List, [], ◌∷◌, ◌++◌, arith, ◌⊎◌, inl, inr, ==_iff,
}
use night_os.LinkedList.{Entry, Cells, write}

-- the addresses of entries, with their values
abbrev pub Items : Type 0
Items = List (ℕ × ℕ)

abbrev pub head_or : Items → Option ℕ → Option ℕ
head_or [] n = n
head_or ((a, v) ∷ r) n = some a

abbrev pub last_or : Items → Option ℕ → Option ℕ
last_or [] p = p
last_or ((a, v) ∷ r) p = last_or r (some a)

-- the entries are linked in this order, between an entry before them and one behind them
unfoldable pub Seg : Cells → Option ℕ → Items → Option ℕ → Type 0
Seg c p [] n = Unit
Seg c p ((a, v) ∷ r) n =
    (c a ≡ some (record { prev = p; next = head_or r n; value = v })) × Seg c (some a) r n

-- no entry is at the address
unfoldable pub Away : ℕ → Items → Type 0
Away b [] = Unit
Away b ((a, v) ∷ r) = (b ≢ a) × Away b r

unfoldable pub Distinct : Items → Type 0
Distinct [] = Unit
Distinct ((a, v) ∷ r) = Away a r × Distinct r

pub write_self : (c : Cells) (a : ℕ) (e : Option Entry) → write c a e a ≡ e
write_self c a e = rw ((==_iff a a).1 refl) refl

pub write_other : (c : Cells) (a b : ℕ) (e : Option Entry) → b ≢ a → write c a e b ≡ c b
write_other c a b e n = ground arith

pub head_or-append :
    (xs ys : Items) (n : Option ℕ) → head_or (xs ++ ys) n ≡ head_or xs (head_or ys n)
head_or-append [] ys n = refl
head_or-append (x ∷ xs) ys n = refl

pub last_or-append :
    (xs ys : Items) (p : Option ℕ) → last_or (xs ++ ys) p ≡ last_or ys (last_or xs p)
last_or-append [] ys p = refl
last_or-append ((a, v) ∷ xs) ys p = last_or-append xs ys (some a)

pub Seg-append :
    (c : Cells) (p n : Option ℕ) (xs ys : Items)
    → Seg c p (xs ++ ys) n
    → Seg c p xs (head_or ys n) × Seg c (last_or xs p) ys n
unfolding Seg
Seg-append c p n [] ys s = (tt, s)
Seg-append c p n ((a, v) ∷ xs) ys (e, s) =
    let (s', t) = Seg-append c (some a) n xs ys s in ((rw (← head_or-append xs ys n) e, s'), t)

pub append-Seg :
    (c : Cells) (p n : Option ℕ) (xs ys : Items)
    → Seg c p xs (head_or ys n)
    → Seg c (last_or xs p) ys n
    → Seg c p (xs ++ ys) n
unfolding Seg
append-Seg c p n [] ys s t = t
append-Seg c p n ((a, v) ∷ xs) ys (e, s) t =
    (rw (head_or-append xs ys n) e, append-Seg c (some a) n xs ys s t)

pub Seg-write :
    (c : Cells) (p n : Option ℕ) (b : ℕ) (e : Option Entry) (xs : Items)
    → Away b xs
    → Seg c p xs n
    → Seg (write c b e) p xs n
unfolding Seg Away
Seg-write c p n b e [] w s = tt
Seg-write c p n b e ((a, v) ∷ xs) (ne, w) (f, s) =
    (write_other c b a e (λ q. ne (sym q)) ∙ f, Seg-write c (some a) n b e xs w s)

-- the first entry linked to another one before it
pub Seg-prev :
    (c : Cells) (p n : Option ℕ) (q : Option ℕ) (b w : ℕ) (ys : Items)
    → Away b ys
    → Seg c p ((b, w) ∷ ys) n
    → Seg (write c b (some (record { prev = q; next = head_or ys n; value = w }))) q ((b, w) ∷ ys) n
unfolding Seg Away
Seg-prev c p n q b w ys d (e, s) = (
  write_self c b (some (record { prev = q; next = head_or ys n; value = w })),
  Seg-write c (some b) n b _ ys d s,
)

-- the last entry linked to another one behind it
pub Seg-next :
    (c : Cells) (p m : Option ℕ) (n : Option ℕ) (xs : Items) (b w : ℕ)
    → Away b xs
    → Seg c p (xs ++ (b, w) ∷ []) m
    → Seg
        (write c b (some (record { prev = last_or xs p; next = n; value = w })))
        p
        (xs ++ (b, w) ∷ [])
        n
unfolding Seg Away
Seg-next c p m n xs b w d s =
    append-Seg _ p n xs ((b, w) ∷ [])
      (Seg-write c p (some b) b _ xs d (Seg-append c p m xs ((b, w) ∷ []) s).0)
      (write_self c b (some (record { prev = last_or xs p; next = n; value = w })), tt)

pub Away-append : (b : ℕ) (xs ys : Items) → Away b (xs ++ ys) → Away b xs × Away b ys
unfolding Away
Away-append b [] ys w = (tt, w)
Away-append b (x ∷ xs) ys (n, w) = let (v, u) = Away-append b xs ys w in ((n, v), u)

pub append-Away : (b : ℕ) (xs ys : Items) → Away b xs → Away b ys → Away b (xs ++ ys)
unfolding Away
append-Away b [] ys v u = u
append-Away b (x ∷ xs) ys (n, v) u = (n, append-Away b xs ys v u)

-- an entry in the middle is at another address than the others
pub Distinct-middle :
    (xs : Items) (b w : ℕ) (ys : Items) → Distinct (xs ++ (b, w) ∷ ys) → Away b xs × Away b ys
unfolding Away Distinct
Distinct-middle [] b w ys (a, d) = (tt, a)
Distinct-middle ((x, v) ∷ xs) b w ys (a, d) =
    let (l, r) = Distinct-middle xs b w ys d in
    ((λ q. (Away-append x xs ((b, w) ∷ ys) a).1.0 (sym q), l), r)

-- and can be left out
pub Distinct-drop :
    (xs : Items) (b w : ℕ) (ys : Items) → Distinct (xs ++ (b, w) ∷ ys) → Distinct (xs ++ ys)
unfolding Distinct Away
Distinct-drop [] b w ys (a, d) = d
Distinct-drop ((x, v) ∷ xs) b w ys (a, d) =
    let (l, r) = Away-append x xs ((b, w) ∷ ys) a in
    (append-Away x xs ys l r.1, Distinct-drop xs b w ys d)

-- or put in
pub Distinct-insert :
    (xs : Items) (b w : ℕ) (ys : Items)
    → Away b (xs ++ ys)
    → Distinct (xs ++ ys)
    → Distinct (xs ++ (b, w) ∷ ys)
unfolding Away Distinct
Distinct-insert [] b w ys a d = (a, d)
Distinct-insert ((x, v) ∷ xs) b w ys (n, a) (f, d) =
    let (l, r) = Away-append x xs ys f in
    (append-Away x xs ((b, w) ∷ ys) l (λ q. n (sym q), r), Distinct-insert xs b w ys a d)

-- a list from its end
pub last_view :
    (xs : Items) → (xs ≡ []) ⊎ ((ys : Items) × (b : ℕ) × (w : ℕ) × (xs ≡ ys ++ (b, w) ∷ []))
last_view [] = inl refl
last_view ((a, v) ∷ xs) = inr (elim (last_view xs) [
  | inl e ↦ ([], a, v, ap (λ r. (a, v) ∷ r) e)
  | inr (ys, b, w, e) ↦ ((a, v) ∷ ys, b, w, ap (λ r. (a, v) ∷ r) e)
])
