-- ===== src/RingBuffer/Contents.antt =====
-- The bytes that a ring buffer holds, oldest first, as a list.
use night_os.Base.{
  ℕ, zero, suc, ◌+◌, ◌%◌, ◌<◌, ◌≡◌, refl, ap, ap₂, List, [], ◌∷◌, ◌++◌, arith, length, get_or,
  get_elem?, some,
}
use night_os.RingBuffer.{CircularBuffer}
use night_os.RingBuffer.Inv.{held}

module _ {ℓ} {A : Type ℓ} where
  -- `f 0`, `f 1`, … up to `f (n - 1)`
  abbrev pub tabulate : ℕ → (ℕ → A) → List A
  tabulate zero f = []
  tabulate (suc n) f = f 0 ∷ tabulate n (λ k. f (suc k))

  pub tabulate_congr :
      (n : ℕ) (f g : ℕ → A) → ((k : ℕ) → k < n → f k ≡ g k) → tabulate n f ≡ tabulate n g
  tabulate_congr zero f g h = refl
  tabulate_congr (suc n) f g h =
      ap₂ ◌∷◌ (h 0 (omega arith))
        (tabulate_congr n (λ k. f (suc k)) (λ k. g (suc k)) (λ k p. h (suc k) (omega arith)))

  pub tabulate_snoc : (n : ℕ) (f : ℕ → A) → tabulate (suc n) f ≡ tabulate n f ++ f n ∷ []
  tabulate_snoc zero f = refl
  tabulate_snoc (suc n) f = ap (λ l. f 0 ∷ l) (tabulate_snoc n (λ k. f (suc k)))

  pub length-tabulate : (n : ℕ) (f : ℕ → A) → length (tabulate n f) ≡ n
  length-tabulate zero f = refl
  length-tabulate (suc n) f = ap suc (length-tabulate n (λ k. f (suc k)))

  pub get_elem?-tabulate :
      (n : ℕ) (f : ℕ → A) (i : ℕ) → i < n → get_elem? (tabulate n f) i ≡ some (f i)
  get_elem?-tabulate zero f i h = elim h [ ]
  get_elem?-tabulate (suc n) f zero h = refl
  get_elem?-tabulate (suc n) f (suc i) h = get_elem?-tabulate n (λ k. f (suc k)) i (omega arith)

-- the byte `k` places behind `head`
abbrev pub byte_at : CircularBuffer → ℕ → ℕ
byte_at cb k = get_or cb.buffer ((cb.head + k) % cb.max) 0

unfoldable pub contents : CircularBuffer → List ℕ
contents cb = tabulate (held cb) (byte_at cb)
