-- ===== src/Str.antt =====
-- libc/string: the string functions. A string is the list of its bytes before the terminator; a
-- read behind the last of them gives the terminator 0. `none` is a null pointer.
pub mod Compare
pub mod Search
pub mod Tokens
mod Tests
use night_os.Base.{
  ℕ, zero, suc, ◌+◌, ◌-◌, ◌%◌, ◌^◌, ◌<◌, Bool, true, false, ◌&&◌, not, Option, none, some, List, [],
  ◌∷◌, ◌==◌, if◌then◌else◌, get_or, take, drop,
}

abbrev pub CString : Type 0
CString = List ℕ

-- The bytes of a string are not 0.
abbrev pub IsString : CString → Type 0
IsString [] = Unit {0}
IsString (c ∷ s) = (0 < c) × (c < 256) × IsString s

-- `*s`
abbrev pub first : CString → ℕ
first [] = 0
first (c ∷ s) = c

-- `s + 1`, where `*s` is not 0
abbrev pub rest : CString → CString
rest [] = []
rest (c ∷ s) = s

-- a difference of two bytes, as an `int`
abbrev pub byte_sub : ℕ → ℕ → ℕ
byte_sub a b = (a + 2 ^ 32 - b) % 2 ^ 32

-- `strcmp`, where neither pointer is null
unfoldable pub strcmp : CString → CString → ℕ
strcmp [] t = byte_sub 0 (first t)
strcmp (c ∷ s) t =
    let further = strcmp s (rest t) in
    if not (c == 0) && (c == first t) then further else byte_sub c (first t)

-- the loop of `strlen`
unfoldable pub strlen : CString → ℕ
strlen [] = 0
strlen (c ∷ s) = let more = suc (strlen s) in if c == 0 then 0 else more

-- the loop of `strncmp`, after `--n`
unfoldable pub strncmp_loop : ℕ → CString → CString → ℕ
strncmp_loop zero s t = byte_sub (first s) (first t)
strncmp_loop (suc n) [] t = byte_sub 0 (first t)
strncmp_loop (suc n) (c ∷ s) t =
    let further = strncmp_loop n s (rest t) in
    if not (c == 0) && (c == first t) then further else byte_sub c (first t)

-- `strncmp`, where neither pointer is null
unfoldable pub strncmp : CString → CString → ℕ → ℕ
unfolding strncmp_loop
strncmp s t zero = 0
strncmp s t (suc n) = strncmp_loop n s t

-- `strchr`: how far the pointer that it returns lies behind `s`
unfoldable pub strchr : CString → ℕ → Option ℕ
strchr [] c = if c == 0 then some 0 else none
strchr (b ∷ s) c =
    let further = strchr s c in
    if b == c
    then some 0
    else if b == 0
    then none
    else (elim further [ none ↦ none | some i ↦ some (suc i) ])

-- the inner loop of `strspn` and `strcspn`: whether a byte is in a set
unfoldable pub among : ℕ → CString → Bool
among b [] = false
among b (r ∷ set) =
    let further = among b set in if r == 0 then false else if b == r then true else further

-- `strcspn`
unfoldable pub strcspn : CString → CString → ℕ
strcspn [] reject = 0
strcspn (b ∷ s) reject =
    let more = suc (strcspn s reject) in if b == 0 then 0 else if among b reject then 0 else more

-- `strspn`
unfoldable pub strspn : CString → CString → ℕ
strspn [] accept = 0
strspn (b ∷ s) accept =
    let more = suc (strspn s accept) in if b == 0 then 0 else if among b accept then more else 0

-- `strpbrk`
unfoldable pub strpbrk : CString → CString → Option ℕ
unfolding strcspn among
strpbrk s accept = let i = strcspn s accept in if get_or s i 0 == 0 then none else some i

-- the inner loop of `strstr`: whether the needle stands at the front
unfoldable pub starts : CString → CString → Bool
starts h [] = true
starts h (n ∷ needle) =
    if n == 0 then true else (not (first h == 0) && (first h == n)) && starts (rest h) needle

-- the outer loop of `strstr`
unfoldable pub strstr_loop : CString → CString → Option ℕ
strstr_loop [] needle = none
strstr_loop (b ∷ h) needle =
    let further = strstr_loop h needle in
    if b == 0
    then none
    else if starts (b ∷ h) needle
    then some 0
    else (elim further [ none ↦ none | some i ↦ some (suc i) ])

-- `strstr`
unfoldable pub strstr : CString → CString → Option ℕ
unfolding strstr_loop starts
strstr haystack needle = if first needle == 0 then some 0 else strstr_loop haystack needle

-- the end of `strtok_r`, behind the leading delimiters
unfoldable pub token : CString → CString → Option CString × Option CString
token s delim =
    let n = strcspn s delim in
    let end = drop n s in
    if first s == 0
    then (none, none)
    else (some (take n s), if first end == 0 then none else some (rest end))

-- `strtok_r`: the token and the new `*saveptr`. The string argument, or else `*saveptr`, is `str`;
-- writing 0 at its end cuts the token off from the rest.
unfoldable pub strtok_r :
    Option CString → CString → Option CString → Option CString × Option CString
strtok_r none delim none = (none, none)
strtok_r none delim (some s) = token (drop (strspn s delim) s) delim
strtok_r (some s) delim saved = token (drop (strspn s delim) s) delim
