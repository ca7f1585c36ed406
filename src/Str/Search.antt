-- ===== src/Str/Search.antt =====
-- What the searching functions find.
use night_os.Base.{
  ℕ, zero, suc, ◌<◌, ◌≤◌, ◌≡◌, ◌≢◌, ◌↔◌, ◌⊎◌, refl, true, false, Option, none, some, [], ◌∷◌, ◌++◌,
  ◌==◌, arith, length, take, drop, get_or, Bool-cases, inl, inr,
}
use night_os.Str.{
  CString, IsString, strcmp, strlen, strncmp, strncmp_loop, among, strcspn, strspn, starts, strstr,
  strstr_loop,
}

pub strlen-length : (s : CString) → IsString s → strlen s ≡ length s
unfolding strlen
strlen-length [] p = refl
strlen-length (c ∷ s) p = ground (arith, strlen-length s p.2)

strncmp_loop-strcmp :
    (n : ℕ) (s t : CString)
    → IsString s
    → IsString t
    → strncmp_loop n s t ≡ strcmp (take (suc n) s) (take (suc n) t)
unfolding strncmp_loop strcmp
strncmp_loop-strcmp zero [] [] p q = refl
strncmp_loop-strcmp zero [] (d ∷ t) p q = refl
strncmp_loop-strcmp zero (c ∷ s) [] p q = ground arith
strncmp_loop-strcmp zero (c ∷ s) (d ∷ t) p q = ground arith
strncmp_loop-strcmp (suc n) [] [] p q = refl
strncmp_loop-strcmp (suc n) [] (d ∷ t) p q = refl
strncmp_loop-strcmp (suc n) (c ∷ s) [] p q = ground (arith)
strncmp_loop-strcmp (suc n) (c ∷ s) (d ∷ t) p q = ground (arith, strncmp_loop-strcmp n s t p.2 q.2)

-- `strncmp` compares the first `n` bytes as `strcmp` compares whole strings.
pub strncmp-strcmp :
    (n : ℕ) (s t : CString) → IsString s → IsString t → strncmp s t n ≡ strcmp (take n s) (take n t)
unfolding strncmp strcmp
strncmp-strcmp zero s t p q = refl
strncmp-strcmp (suc n) s t p q = strncmp_loop-strcmp n s t p q

-- no byte of a string is in the set, or every one is
abbrev pub NoneAmong : CString → CString → Type 0
NoneAmong [] set = Unit {0}
NoneAmong (b ∷ s) set = (among b set ≡ false) × NoneAmong s set

abbrev pub AllAmong : CString → CString → Type 0
AllAmong [] set = Unit {0}
AllAmong (b ∷ s) set = (among b set ≡ true) × AllAmong s set

-- `strcspn` is the length of the longest front without a byte of the set.
pub strcspn_lem :
    (s reject : CString)
    → IsString s
    → (strcspn s reject ≤ length s)
      × NoneAmong (take (strcspn s reject) s) reject
      × ((strcspn s reject ≡ length s) ⊎ (among (get_or s (strcspn s reject) 0) reject ≡ true))
unfolding strcspn
strcspn_lem [] reject p = (omega arith, tt, inl refl)
strcspn_lem (b ∷ s) reject p = ground (arith, strcspn_lem s reject p.2)

-- `strspn` is the length of the longest front of bytes of the set.
pub strspn_lem :
    (s accept : CString)
    → IsString s
    → (strspn s accept ≤ length s)
      × AllAmong (take (strspn s accept) s) accept
      × ((strspn s accept ≡ length s) ⊎ (among (get_or s (strspn s accept) 0) accept ≡ false))
unfolding strspn
strspn_lem [] accept p = (omega arith, tt, inl refl)
strspn_lem (b ∷ s) accept p = ground (arith, strspn_lem s accept p.2)

-- the needle stands at the front
abbrev pub IsPrefix : CString → CString → Type 0
IsPrefix needle h = (r : CString) × (h ≡ needle ++ r)

starts-IsPrefix :
    (h needle : CString) → IsString needle → starts h needle ≡ true → IsPrefix needle h
unfolding starts
starts-IsPrefix h [] p e = (h, refl)
starts-IsPrefix [] (n ∷ needle) p e = ground arith
starts-IsPrefix (b ∷ h) (n ∷ needle) p e =
    let (r, f) = starts-IsPrefix h needle p.2 (ground arith) in (r, ground arith)

starts_of_IsPrefix : (needle r : CString) → IsString needle → starts (needle ++ r) needle ≡ true
unfolding starts
starts_of_IsPrefix [] r p = refl
starts_of_IsPrefix (n ∷ needle) r p = ground (arith, starts_of_IsPrefix needle r p.2)

-- The first place in `h` where the needle stands, or that there is none before the end.
abbrev pub Finds : CString → CString → Option ℕ → Type 0
Finds h needle none = (j : ℕ) → j < length h → starts (drop j h) needle ≡ false
Finds h needle (some i) =
    (starts (drop i h) needle ≡ true) × ((j : ℕ) → j < i → starts (drop j h) needle ≡ false)

Finds-later :
    (b : ℕ) (h needle : CString) (r : Option ℕ)
    → starts (b ∷ h) needle ≡ false
    → Finds h needle r
    → Finds (b ∷ h) needle (elim r [ none ↦ none | some i ↦ some (suc i) ])
Finds-later b h needle none e f = before
  where
    before : (j : ℕ) → j < suc (length h) → starts (drop j (b ∷ h)) needle ≡ false
    before zero lt = e
    before (suc j) lt = f j (omega arith)
Finds-later b h needle (some i) e f = (f.0, before)
  where
    before : (j : ℕ) → j < suc i → starts (drop j (b ∷ h)) needle ≡ false
    before zero lt = e
    before (suc j) lt = f.1 j (omega arith)

strstr_loop-Finds : (h needle : CString) → IsString h → Finds h needle (strstr_loop h needle)
unfolding strstr_loop
strstr_loop-Finds [] needle p = λ j lt. absurd (omega arith)
strstr_loop-Finds (b ∷ h) needle p = elim (Bool-cases (starts (b ∷ h) needle)) [
  | inl e ↦
      let run : (b == 0) ≡ false = ground arith in rw (run, e) (e, λ j lt. absurd (omega arith))
  | inr e ↦
      let run : (b == 0) ≡ false = ground arith in
      rw (run, e) (Finds-later b h needle (strstr_loop h needle) e (strstr_loop-Finds h needle p.2))
]

-- `strstr` of a needle that is not empty finds the first place where the needle stands, and returns
-- `NULL` exactly if it stands nowhere.
pub strstr-Finds :
    (h needle : CString)
    → IsString h
    → IsString needle
    → needle ≢ []
    → Finds h needle (strstr h needle)
unfolding strstr
strstr-Finds h [] p q ne = absurd (ne refl)
strstr-Finds h (n ∷ needle) p q ne =
    let run : (n == 0) ≡ false = ground arith in rw run (strstr_loop-Finds h (n ∷ needle) p)

-- `starts` decides whether the needle is a prefix.
pub starts_iff :
    (h needle : CString) → IsString needle → (starts h needle ≡ true) ↔ IsPrefix needle h
starts_iff h needle p = (starts-IsPrefix h needle p, λ f. rw f.1 (starts_of_IsPrefix needle f.0 p))
