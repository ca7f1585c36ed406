-- ===== src/Str/Tests.antt =====
-- The theorems about strings at concrete strings.
use night_os.Base.{◌≡◌, refl, none, some, [], ◌∷◌, arith}
use night_os.Str.{CString, strstr, strtok_r, token, strspn, strcspn, among}
use night_os.Str.Tokens.{Cut, strtok_r-Cut}

-- "/a/bc", "/" and "bc"
abbrev path : CString
path = 47 ∷ 97 ∷ 47 ∷ 98 ∷ 99 ∷ []

abbrev slash : CString
slash = 47 ∷ []

abbrev word : CString
word = 98 ∷ 99 ∷ []

first_token : strtok_r (some path) slash none ≡ (some (97 ∷ []), some word)
unfolding strtok_r token strspn strcspn among
first_token = refl

finds_word : strstr path word ≡ some 3
unfolding strstr
finds_word = refl

strtok_r-Cut_example : Cut path slash (strtok_r (some path) slash none)
strtok_r-Cut_example = strtok_r-Cut path slash none (omega arith)
