-- ===== src/Str/Compare.antt =====
-- `strcmp` decides equality.
use night_os.Base.{◌≡◌, ◌↔◌, refl, true, [], ◌∷◌, ◌==◌, arith}
use night_os.Str.{CString, IsString, strcmp}

pub strcmp_self : (s : CString) → strcmp s s ≡ 0
unfolding strcmp
strcmp_self [] = refl
strcmp_self (c ∷ s) = ground (arith, strcmp_self s)

pub eq_of_strcmp : (s t : CString) → IsString s → IsString t → strcmp s t ≡ 0 → s ≡ t
unfolding strcmp
eq_of_strcmp [] [] p q h = refl
eq_of_strcmp [] (d ∷ t) p q h = absurd (omega arith)
eq_of_strcmp (c ∷ s) [] p q h = ground arith
eq_of_strcmp (c ∷ s) (d ∷ t) p q h = ground (arith, eq_of_strcmp s t p.2 q.2)

-- `strcmp` of two strings returns 0 exactly if they are equal.
pub strcmp-zero_iff :
    (s t : CString) → IsString s → IsString t → ((strcmp s t == 0) ≡ true) ↔ (s ≡ t)
strcmp-zero_iff s t p q = (λ h. eq_of_strcmp s t p q (ground arith), λ e. rw (e, strcmp_self))
