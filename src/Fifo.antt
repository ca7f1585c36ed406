-- ===== src/Fifo.antt =====
-- What a client asks of a byte buffer, and a bounded queue of bytes, oldest first, that answers.
use night_os.Base.{
  ℕ, ◌≡◌, refl, ap, ◌+◌, ◌^◌, ◌<◌, Bool, true, false, Option, none, some, List, [], ◌∷◌, ◌++◌,
  length, get_elem?, take, drop, leb, if◌then◌else◌, Run, ok, blocked,
}

pub data Op : Type 0 where
  put : List ℕ → Op
  get : ℕ → Op
  drop_last : Op
  look : ℕ → Op
  look_last : Op
  clear : Op

pub data Reply : Type 0 where
  count : ℕ → Reply
  bytes : List ℕ → Reply
  flag : Bool → Reply
  byte : Option ℕ → Reply
  done : Reply

-- the sizes and offsets that an `int` carries, and no read of nothing
abbrev pub Fits : Op → Type 0
Fits (put bs) = length bs < 2 ^ 31
Fits (get n) = (0 < n) × (n < 2 ^ 31)
Fits (look i) = i < 2 ^ 31
Fits _ = Unit {0}

abbrev pub last? : List ℕ → Option ℕ
last? [] = none
last? (x ∷ []) = some x
last? (x ∷ y ∷ l) = last? (y ∷ l)

abbrev pub init : List ℕ → List ℕ
init [] = []
init (x ∷ []) = []
init (x ∷ y ∷ l) = x ∷ init (y ∷ l)

-- A `put` is all or nothing, a `get` of an empty queue sleeps.
unfoldable pub step : ℕ → Op → List ℕ → Run (Reply × List ℕ)
step capacity (put bs) q =
    if leb (length q + length bs) capacity then ok (count (length bs), q ++ bs) else ok (count 0, q)
step capacity (get n) [] = blocked
step capacity (get n) (x ∷ q) = ok (bytes (take n (x ∷ q)), drop n (x ∷ q))
step capacity drop_last [] = ok (flag false, [])
step capacity drop_last (x ∷ q) = ok (flag true, init (x ∷ q))
step capacity (look i) q = ok (byte (get_elem? q i), q)
step capacity look_last q = ok (byte (last? q), q)
step capacity clear q = ok (done, [])

-- the replies to a sequence of calls, up to one that sleeps
unfoldable pub run : ℕ → List Op → List ℕ → List Reply
run capacity [] q = []
run capacity (op ∷ ops) q =
    let next = step capacity op q in elim next [ ok r ↦ r.0 ∷ run capacity ops r.1 | _ ↦ [] ]

pub last?-snoc : (l : List ℕ) (x : ℕ) → last? (l ++ x ∷ []) ≡ some x
last?-snoc [] x = refl
last?-snoc (y ∷ []) x = refl
last?-snoc (y ∷ z ∷ l) x = last?-snoc (z ∷ l) x

pub init-snoc : (l : List ℕ) (x : ℕ) → init (l ++ x ∷ []) ≡ l
init-snoc [] x = refl
init-snoc (y ∷ []) x = refl
init-snoc (y ∷ z ∷ l) x = ap (λ t. y ∷ t) (init-snoc (z ∷ l) x)
