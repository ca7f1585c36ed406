-- ===== src/Str/Tokens.antt =====
-- What `strtok_r` cuts off.
use night_os.Base.{
  ℕ, zero, suc, ◌≡◌, ◌≢◌, ◌⊎◌, refl, ap, ◌∙◌, sym, true, false, Option, none, some, [], ◌∷◌, ◌++◌,
  ◌==◌, arith, if◌then◌else◌, length, take, drop, get_or, append-nil, append_assoc, inl, inr,
}
use mathlib.Core.Path.{subst}
use night_os.Str.{CString, IsString, first, rest, among, strcspn, strspn, token, strtok_r}
use night_os.Str.Search.{NoneAmong, AllAmong, strcspn_lem, strspn_lem}

-- The string as `strtok_r` takes it apart: delimiters, a token without one, and what follows the
-- delimiter that ends the token.
pub data Cut (s delim : CString) : Option CString × Option CString → Type 0 where
  empty : AllAmong s delim → Cut s delim (none, none)
  last :
      (lead word : CString)
      → AllAmong lead delim
      → NoneAmong word delim
      → word ≢ []
      → s ≡ lead ++ word
      → Cut s delim (some word, none)
  more :
      (lead word : CString) (d : ℕ) (later : CString)
      → AllAmong lead delim
      → NoneAmong word delim
      → word ≢ []
      → among d delim ≡ true
      → s ≡ lead ++ word ++ d ∷ later
      → Cut s delim (some word, some later)

take-append-drop : (n : ℕ) (s : CString) → s ≡ take n s ++ drop n s
take-append-drop zero s = refl
take-append-drop (suc n) [] = refl
take-append-drop (suc n) (x ∷ s) = ap (λ l. x ∷ l) (take-append-drop n s)

IsString-drop : (n : ℕ) (s : CString) → IsString s → IsString (drop n s)
IsString-drop zero s p = p
IsString-drop (suc n) [] p = tt
IsString-drop (suc n) (x ∷ s) p = IsString-drop n s p.2

take_all : (n : ℕ) (s : CString) → n ≡ length s → take n s ≡ s
take_all zero [] e = refl
take_all zero (x ∷ s) e = absurd (omega arith)
take_all (suc n) [] e = refl
take_all (suc n) (x ∷ s) e = ap (λ l. x ∷ l) (take_all n s (omega arith))

drop_all : (n : ℕ) (s : CString) → n ≡ length s → drop n s ≡ []
drop_all zero [] e = refl
drop_all zero (x ∷ s) e = absurd (omega arith)
drop_all (suc n) [] e = refl
drop_all (suc n) (x ∷ s) e = drop_all n s (omega arith)

get_or-first : (n : ℕ) (s : CString) → get_or s n 0 ≡ first (drop n s)
get_or-first zero [] = refl
get_or-first zero (x ∷ s) = refl
get_or-first (suc n) [] = refl
get_or-first (suc n) (x ∷ s) = get_or-first n s

among_zero : (set : CString) → IsString set → among 0 set ≡ false
unfolding among
among_zero [] p = refl
among_zero (r ∷ set) p = ground (arith, among_zero set p.2)

-- where the token ends
Cut_at :
    (lead s delim word end : CString)
    → AllAmong lead delim
    → s ≡ word ++ end
    → NoneAmong word delim
    → word ≢ []
    → IsString end
    → (end ≡ []) ⊎ (among (first end) delim ≡ true)
    → Cut (lead ++ s) delim (some word, if first end == 0 then none else some (rest end))
Cut_at lead s delim word [] all e noneof ne p h =
    last lead word all noneof ne (ap (λ l. lead ++ l) (e ∙ append-nil word))
Cut_at lead s delim word (d ∷ later) all e noneof ne p (inl h) = absurd (cc h)
Cut_at lead s delim word (d ∷ later) all e noneof ne p (inr h) =
    let run : (d == 0) ≡ false = ground arith in
    rw run (
      more lead word d later all noneof ne h
        (ap (λ l. lead ++ l) e ∙ sym (append_assoc lead word (d ∷ later))))

word_ne_nil :
    (s delim : CString)
    → IsString s
    → s ≢ []
    → among (first s) delim ≡ false
    → take (strcspn s delim) s ≢ []
unfolding strcspn
word_ne_nil [] delim p ne h = absurd (ne refl)
word_ne_nil (b ∷ s) delim p ne h = ground arith

-- A string that is empty or begins with no delimiter, behind delimiters.
token-Cut :
    (lead s delim : CString)
    → AllAmong lead delim
    → IsString s
    → (s ≡ []) ⊎ (among (first s) delim ≡ false)
    → Cut (lead ++ s) delim (token s delim)
unfolding token
token-Cut lead [] delim all p h = empty (subst (λ l. AllAmong l delim) (sym (append-nil lead)) all)
token-Cut lead (b ∷ s) delim all p (inl h) = absurd (cc h)
token-Cut lead (b ∷ s) delim all p (inr h) =
    let t = b ∷ s in
    let n = strcspn t delim in
    let (le, noneof, tail) = strcspn_lem t delim p in
    let run : (b == 0) ≡ false = ground arith in
    rw run (
      Cut_at lead t delim (take n t) (drop n t) all (take-append-drop n t) noneof
        (word_ne_nil t delim p (λ e. cc e) h) (IsString-drop n t p) (tail_of n t tail))
  where
    tail_of :
        (n : ℕ) (t : CString)
        → (n ≡ length t) ⊎ (among (get_or t n 0) delim ≡ true)
        → (drop n t ≡ []) ⊎ (among (first (drop n t)) delim ≡ true)
    tail_of n t (inl e) = inl (drop_all n t e)
    tail_of n t (inr e) = inr (rw (← get_or-first n t) e)

front_of :
    (n : ℕ) (s delim : CString)
    → (n ≡ length s) ⊎ (among (get_or s n 0) delim ≡ false)
    → (drop n s ≡ []) ⊎ (among (first (drop n s)) delim ≡ false)
front_of n s delim (inl e) = inl (drop_all n s e)
front_of n s delim (inr e) = inr (rw (← get_or-first n s) e)

-- `strtok_r` on a string skips the leading delimiters and returns the longest token behind them,
-- with the rest behind the one delimiter that ends it; `NULL` means that nothing but delimiters was
-- left. No byte but that delimiter and the leading ones is lost.
pub strtok_r-Cut :
    (s delim : CString) (saved : Option CString)
    → IsString s
    → Cut s delim (strtok_r (some s) delim saved)
unfolding strtok_r
strtok_r-Cut s delim saved p =
    let n = strspn s delim in
    let (le, all, front) = strspn_lem s delim p in
    subst (λ l. Cut l delim (token (drop n s) delim)) (sym (take-append-drop n s))
      (token-Cut (take n s) (drop n s) delim all (IsString-drop n s p) (front_of n s delim front))

-- A call with `NULL` goes on where the last one stopped.
pub strtok_r_continue :
    (s delim : CString) (saved : Option CString)
    → strtok_r none delim (some s) ≡ strtok_r (some s) delim saved
unfolding strtok_r
strtok_r_continue s delim saved = refl
