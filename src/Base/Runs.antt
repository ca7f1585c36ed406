-- ===== src/Base/Runs.antt =====
-- What a call does: it returns, it faults (a read or write outside an object, a division by zero),
-- it sleeps with nobody left to wake it, or the rounds given to a loop do not suffice.
use mathlib.Core.Path.{◌≡◌, refl}

pub data Run {ℓ} (A : Type ℓ) : Type ℓ where
  ok : A → Run A
  fault : Run A
  blocked : Run A
  out_of_fuel : Run A

infixl 5 ◌>>=◌ ◌>>◌
abbrev pub ◌>>=◌ {i j} : {X : Type i} {Y : Type j} (call : Run X) (further : X → Run Y) → Run Y
ok x >>= further = further x
fault >>= _ = fault
blocked >>= _ = blocked
out_of_fuel >>= _ = out_of_fuel

abbrev pub ◌>>◌ {i j} : {X : Type i} {Y : Type j} (call : Run X) (next : Run Y) → Run Y
call >> next = call >>= λ _. next

-- The call returns, in a value that satisfies `Post`.
abbrev pub Returns {i j} : {X : Type i} (call : Run X) (Post : X → Type j) → Type (i ⊔ j)
Returns {X} call Post = (x : X) × (call ≡ ok x) × Post x

-- the laws of composition
pub bind-eq {i j} :
    {X : Type i} {Y : Type j} (r : Run X) (f g : X → Run Y)
    → ((x : X) → f x ≡ g x)
    → (r >>= f) ≡ (r >>= g)
bind-eq (ok x) f g e = e x
bind-eq fault f g e = refl
bind-eq blocked f g e = refl
bind-eq out_of_fuel f g e = refl

pub bind_assoc {i j k} :
    {X : Type i} {Y : Type j} {Z : Type k} (r : Run X) (f : X → Run Y) (g : Y → Run Z)
    → ((r >>= f) >>= g) ≡ (r >>= λ x. f x >>= g)
bind_assoc (ok x) f g = refl
bind_assoc fault f g = refl
bind_assoc blocked f g = refl
bind_assoc out_of_fuel f g = refl
