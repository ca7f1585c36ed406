-- ===== src/Vfs/Names.antt =====
-- The names in a path, and how `strtok_r` cuts them off.
use night_os.Base.{
  ℕ, ◌≡◌, ◌≢◌, refl, ap, false, Option, none, some, List, [], ◌∷◌, ◌++◌, length, take, drop, arith,
  ◌==◌, if◌then◌else◌,
}
use night_os.Str.{CString, strtok_r, strspn, strcspn, token, among, first, rest}
use night_os.Vfs.{slash}

-- a name has no slash
unfoldable pub IsName : CString → Type 0
IsName [] = Unit
IsName (c ∷ w) = (c ≢ 0) × (c ≢ 47) × IsName w

unfoldable pub AreNames : List CString → Type 0
AreNames [] = Unit
AreNames (w ∷ ws) = (w ≢ []) × IsName w × AreNames ws

-- the absolute path through some names
abbrev pub join : List CString → CString
join [] = []
join (w ∷ ws) = 47 ∷ w ++ join ws

-- what `strtok_r` keeps for the next call
abbrev pub saved : List CString → Option CString
saved [] = none
saved (w ∷ ws) = some (w ++ join ws)

among-slash : (c : ℕ) → c ≢ 47 → among c slash ≡ false
unfolding among
among-slash c n = ground arith

strcspn-name :
    (w : CString) → (ws : List CString) → IsName w → strcspn (w ++ join ws) slash ≡ length w
unfolding strcspn IsName among
strcspn-name [] [] p = refl
strcspn-name [] (v ∷ ws) p = refl
strcspn-name (c ∷ w) ws (z, n, p) = ground (arith, among-slash c n, strcspn-name w ws p)

take-length : (w r : CString) → take (length w) (w ++ r) ≡ w
take-length [] r = refl
take-length (c ∷ w) r = ap (λ t. c ∷ t) (take-length w r)

drop-length : (w r : CString) → drop (length w) (w ++ r) ≡ r
drop-length [] r = refl
drop-length (c ∷ w) r = drop-length w r

cut :
    (ws : List CString) → (if first (join ws) == 0 then none else some (rest (join ws))) ≡ saved ws
cut [] = refl
cut (w ∷ ws) = refl

not_zero : (c : ℕ) → c ≢ 0 → (c == 0) ≡ false
not_zero c n = ground arith

token-name :
    (w : CString)
    → (ws : List CString) → w ≢ []
    → IsName w
    → token (w ++ join ws) slash ≡ (some w, saved ws)
unfolding token IsName
token-name [] ws n p = elim (n refl) [ ]
token-name (c ∷ w) ws n p =
    rw (strcspn-name (c ∷ w) ws p, take-length, drop-length, not_zero c p.0, cut ws) refl

strspn-name : (w r : CString) → w ≢ [] → IsName w → strspn (w ++ r) slash ≡ 0
unfolding strspn IsName among
strspn-name [] r n p = elim (n refl) [ ]
strspn-name (c ∷ w) r n p = ground (arith, p.0, p.1)

strspn-slash : (w r : CString) → w ≢ [] → IsName w → strspn (47 ∷ w ++ r) slash ≡ 1
unfolding strspn among
strspn-slash w r n p = rw (strspn-name w r n p) refl

-- the first call cuts off the first name
pub strtok_r-join :
    (w : CString)
    → (ws : List CString) → w ≢ []
    → IsName w
    → strtok_r (some (join (w ∷ ws))) slash none ≡ (some w, saved ws)
unfolding strtok_r
strtok_r-join w ws n p = rw (strspn-slash w (join ws) n p) (token-name w ws n p)

-- the next calls cut off the next names
pub strtok_r-saved :
    (w : CString)
    → (ws : List CString) → w ≢ []
    → IsName w
    → strtok_r none slash (saved (w ∷ ws)) ≡ (some w, saved ws)
unfolding strtok_r
strtok_r-saved w ws n p = rw (strspn-name w (join ws) n p) (token-name w ws n p)

-- and the call behind the last one nothing
pub strtok_r-none : (delim : CString) → strtok_r none delim none ≡ (none, none)
unfolding strtok_r
strtok_r-none delim = refl
