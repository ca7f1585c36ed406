-- ===== src/Vfs/Ends.antt =====
-- That the loop over a path ends.
use night_os.Base.{
  ℕ, zero, suc, ◌≡◌, ◌≤◌, ◌<◌, refl, Bool, true, false, Option, none, some, [], ◌∷◌, ◌++◌, length,
  drop, arith, Run, ok, fault, blocked, out_of_fuel, ◌==◌, if◌then◌else◌, Bool-cases, inl, inr, ◌⊎◌,
  ==_iff, ◌>>=◌,
}
use night_os.Str.{CString, strtok_r, strspn, strcspn, token, first, rest, strcmp}
use night_os.Tree.{Node, Position, value_of, children_of, parent}
use night_os.Vfs.{
  Files, Vfs, Answer, slash, dot, dot_dot, answer, node_of, get_child, cache_node, Further, finish,
  go_up, ask_driver, not_cached, enter, enter_at, go_down, walk, walk_from, start_from, walk_after,
  resolve_path,
}

-- the call returns or faults
unfoldable pub Ends {ℓ} : {A : Type ℓ} → Run A → Type 0
Ends (ok a) = Unit
Ends fault = Unit
Ends blocked = ⊥
Ends out_of_fuel = ⊥

-- the bytes that `strtok_r` still has to read, and one for the pointer
abbrev pub left : Option CString → ℕ
left none = 0
left (some s) = suc (length s)

drop-length : (n : ℕ) → (s : CString) → length (drop n s) ≤ length s
drop-length zero s = omega arith
drop-length (suc n) [] = omega arith
drop-length (suc n) (c ∷ s) = omega (arith, drop-length n s)

behind-left : (e : CString) → left (if first e == 0 then none else some (rest e)) ≤ length e
behind-left [] = omega arith
behind-left (c ∷ e) = ground arith

token-left : (s delim : CString) → left (token s delim).1 ≤ length s
unfolding token
token-left s delim = elim (Bool-cases (first s == 0)) [
  | inl z ↦ rw (z) omega arith
  | inr z ↦
      rw (z) omega (arith, behind-left (drop (strcspn s delim) s), drop-length (strcspn s delim) s)
]

strtok_r-left : (delim s : CString) → left (strtok_r none delim (some s)).1 < suc (length s)
unfolding strtok_r
strtok_r-left delim s =
    omega (arith, token-left (drop (strspn s delim) s) delim, drop-length (strspn s delim) s)

first_token-left : (delim s : CString) → left (strtok_r (some s) delim none).1 < suc (length s)
unfolding strtok_r
first_token-left delim s =
    omega (arith, token-left (drop (strspn s delim) s) delim, drop-length (strspn s delim) s)

last_token : (delim : CString) → (strtok_r none delim none).0 ≡ none
unfolding strtok_r
last_token delim = refl

ended : (a : Answer × Vfs) → Ends (ok a)
unfolding Ends
ended a = tt

-- a call goes on in calls that end
abbrev AllEnd : Further → Type 0
AllEnd further = (c : Option Position) → (t : Vfs) → Ends (further c t)

finish-Ends : (c : Option Position) → (t : Vfs) → Ends (finish c t)
unfolding finish Ends
finish-Ends none t = tt
finish-Ends (some p) t = go (node_of p t)
  where
    go :
        (o : Option Node)
        → Ends (elim o as (λ x. Run (Answer × Vfs)) [
          | none ↦ fault
          | some n ↦ ok (answer (some (value_of n)), t)
        ])
    go none = tt
    go (some n) = tt

go_up-Ends :
    (c : Option Position)
    → (further : Further) → (s : Vfs) → AllEnd further
    → Ends (go_up c further s)
unfolding go_up Ends
go_up-Ends none further s f = tt
go_up-Ends (some []) further s f = tt
go_up-Ends (some (i ∷ p)) further s f = f (some (parent i p)) s

ask_driver-Ends :
    (o : Option ℕ)
    → (pch : Option CString) → (dir : ℕ) → (name : CString) → (p : Position) → (further : Further)
    → (s : Vfs) → AllEnd further
    → Ends (ask_driver o pch dir name p further s)
unfolding ask_driver Ends
ask_driver-Ends (some file) none dir name p further s f = tt
ask_driver-Ends (some file) (some pch) dir name p further s f =
    f (some (cache_node p file s).0) (cache_node p file s).1
ask_driver-Ends none none dir name p further s f = tt
ask_driver-Ends none (some pch) dir name p further s f = tt

not_cached-Ends :
    (o : Option (CString → Option ℕ))
    → (pch : Option CString) → (dir : ℕ) → (name : CString) → (p : Position) → (further : Further)
    → (s : Vfs) → AllEnd further
    → Ends (not_cached o pch dir name p further s)
unfolding not_cached Ends
not_cached-Ends (some find) pch dir name p further s f =
    ask_driver-Ends (find name) pch dir name p further s f
not_cached-Ends none none dir name p further s f = tt
not_cached-Ends none (some pch) dir name p further s f = f none s

enter-Ends :
    (files : Files)
    → (o : Option ℕ) → (pch : Option CString) → (dir : ℕ) → (name : CString) → (p : Position)
    → (further : Further) → (s : Vfs) → AllEnd further
    → Ends (enter files o pch dir name p further s)
unfolding enter
enter-Ends files (some i) pch dir name p further s f = f (some (p ++ i ∷ [])) s
enter-Ends files none pch dir name p further s f =
    not_cached-Ends (files.find_dir dir) pch dir name p further s f

enter_at-Ends :
    (files : Files)
    → (o : Option Node) → (pch : Option CString) → (name : CString) → (p : Position)
    → (further : Further) → (s : Vfs) → AllEnd further
    → Ends (enter_at files o pch name p further s)
unfolding enter_at Ends
enter_at-Ends files none pch name p further s f = tt
enter_at-Ends files (some n) pch name p further s f =
    enter-Ends files (get_child files name 0 (children_of n)) pch (value_of n) name p further s f

go_down-Ends :
    (files : Files)
    → (c : Option Position) → (pch : Option CString) → (name : CString) → (further : Further)
    → (s : Vfs) → AllEnd further
    → Ends (go_down files c pch name further s)
unfolding go_down Ends
go_down-Ends files none pch name further s f = tt
go_down-Ends files (some p) pch name further s f =
    enter_at-Ends files (node_of p s) pch name p further s f

-- the next token is the last, or leaves less to read
next_round :
    (delim : CString)
    → (save : Option CString) → (fuel : ℕ) → left save < suc fuel
    → ((strtok_r none delim save).0 ≡ none) ⊎ (left (strtok_r none delim save).1 < fuel)
next_round delim none fuel l = inl (last_token delim)
next_round delim (some s) fuel l = inr (omega (arith, strtok_r-left delim s, l))

walk-Ends :
    (files : Files)
    → (fuel : ℕ) → (name : CString) → (save : Option CString) → (c : Option Position) → (s : Vfs)
    → left save < fuel
    → Ends (walk files fuel name save c s)
unfolding walk
walk-Ends files zero name save c s l = grind (arith, l)
walk-Ends files (suc fuel) name save c s l =
    pick_way (λ pch c t m. walk-Ends files fuel pch (strtok_r none slash save).1 c t m)
      (strcmp name dot_dot == 0) (strcmp name dot == 0)
  where
    next : Option CString × Option CString
    next = strtok_r none slash save

    further : Further
    further = λ c t. elim next.0 [ none ↦ finish c t | some pch ↦ walk files fuel pch next.1 c t ]

    Again : Type 0
    Again =
        (pch : CString)
        → (c : Option Position) → (t : Vfs) → left next.1 < fuel
        → Ends (walk files fuel pch next.1 c t)

    goes_on :
        Again
        → (o : Option CString) → (o ≡ none) ⊎ (left next.1 < fuel)
        → (c : Option Position) → (t : Vfs)
        → Ends (elim o as (λ x. Run (Answer × Vfs)) [
          | none ↦ finish c t
          | some pch ↦ walk files fuel pch next.1 c t
        ])
    goes_on again none h c t = finish-Ends c t
    goes_on again (some pch) (inl e) c t = grind (arith, e)
    goes_on again (some pch) (inr m) c t = again pch c t m

    further-Ends : Again → AllEnd further
    further-Ends again c t = goes_on again next.0 (next_round slash save fuel l) c t

    pick_way :
        Again
        → (a b : Bool)
        → Ends (
            if a
            then go_up c further s
            else if b
            then further c s
            else go_down files c next.0 name further s)
    pick_way again true b = go_up-Ends c further s (further-Ends again)
    pick_way again false true = further-Ends again c s
    pick_way again false false = go_down-Ends files c next.0 name further s (further-Ends again)

walk_from-Ends :
    (files : Files)
    → (file : CString) → (p : Position) → (s : Vfs) → Ends (walk_from files file p s)
unfolding walk_from
walk_from-Ends files file p s = go (strtok_r (some file) slash none).0
  where
    go :
        (o : Option CString)
        → Ends (elim o as (λ x. Run (Answer × Vfs)) [
          | none ↦ ok (answer none, s)
          | some pch ↦
              walk files (suc (length file)) pch (strtok_r (some file) slash none).1 (some p) s
        ])
    go none = ended (answer none, s)
    go (some pch) =
        walk-Ends files (suc (length file)) pch (strtok_r (some file) slash none).1 (some p) s
          (first_token-left slash file)

-- `resolve_path` on an absolute path returns or faults: its loop ends in any tree of files and with
-- any find_dir that is a function of the file and the name, and `length file + 1` rounds are enough
-- for it.
pub resolve_path-Ends :
    (files : Files)
    → (rounds : ℕ) → (cwd file : CString) → (s : Vfs) → first file ≡ 47
    → Ends (resolve_path files rounds cwd file s)
unfolding resolve_path
resolve_path-Ends files rounds cwd file s e =
    go (strcmp file slash == 0) (first file == 47) ((==_iff (first file) 47).1 e)
  where
    go :
        (a b : Bool)
        → b ≡ true
        → Ends (
            if a
            then ok (answer s.root_node, s)
            else if b
            then walk_from files file [] s
            else (start_from files rounds cwd s >>= walk_after files file))
    go true b q = ended (answer s.root_node, s)
    go false true q = walk_from-Ends files file [] s
    go false false q = grind (arith, q)
