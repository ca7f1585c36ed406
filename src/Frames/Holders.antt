-- ===== src/Frames/Holders.antt =====
-- Who holds which frame, over any sequence of calls.
use night_os.Base.{
  ℕ, zero, suc, ◌*◌, ◌/◌, ◌^◌, ◌≡◌, ◌≢◌, ◌<◌, refl, ap, sym, Bool, true, false, ◌||◌, List, [], ◌∷◌,
  arith, ◌==◌, if◌then◌else◌, ok,
}
use mathlib.Core.Path.{subst}
use night_os.Base.Int.{pos}
use night_os.Frames.{Frames, bitmap_size, write, kalloc_frame, kfree_frame}
use night_os.Frames.Alloc.{IsValid, Used, allocated, Outcome, found, full, kalloc_frame-Outcome}
use night_os.Frames.Free.{
  kfree_frame_lem, kfree_frame-IsValid, allocated-IsValid, exhausted-IsValid,
}

-- whether a frame is among those held
abbrev pub has : ℕ → List ℕ → Bool
has n [] = false
has n (m ∷ ms) = n == m || has n ms

abbrev pub without : ℕ → List ℕ → List ℕ
without n [] = []
without n (m ∷ ms) = if n == m then ms else m ∷ without n ms

-- The frames held are marked, lie behind frame 0 and are held once.
abbrev pub AreHeld : Frames → List ℕ → Type 0
AreHeld s [] = Unit {0}
AreHeld s (n ∷ ns) = (0 < n) × (n < bitmap_size) × Used s n × (has n ns ≡ false) × AreHeld s ns

pub record Inv (s : Frames) (held : List ℕ) : Type 0 where
  pub valid : IsValid s
  pub reserved : Used s 0
  pub marked : AreHeld s held

-- One call: a frame handed out, a call that finds none, or a holder that gives a frame back.
pub data Step (s : Frames) (held : List ℕ) : Frames → List ℕ → Type 0 where
  alloc :
      {a : ℕ} {s' : Frames}
      → kalloc_frame s ≡ ok (a, s')
      → a ≢ 0
      → Step s held s' (a / 2 ^ 12 ∷ held)
  exhausted : {s' : Frames} → kalloc_frame s ≡ ok (0, s') → Step s held s' held
  free : (n : ℕ) → has n held ≡ true → Step s held (kfree_frame (n * 2 ^ 12) s) (without n held)

pub data Reach (s : Frames) (held : List ℕ) : Frames → List ℕ → Type 0 where
  start : Reach s held s held
  next :
      {s₁ s₂ : Frames} {h₁ h₂ : List ℕ} → Reach s held s₁ h₁ → Step s₁ h₁ s₂ h₂ → Reach s held s₂ h₂

not-has :
    (s : Frames) (n : ℕ) (held : List ℕ)
    → s.memory_map (pos n) ≡ 0
    → AreHeld s held
    → has n held ≡ false
not-has s n [] z h = refl
not-has s n (m ∷ ms) z h = ground (arith, not-has s n ms z, ap (λ k. s.memory_map (pos k)))

AreHeld-write :
    (s : Frames) (n w : ℕ) (s' : Frames) (held : List ℕ)
    → s'.memory_map ≡ write s.memory_map (pos n) w
    → has n held ≡ false
    → AreHeld s held
    → AreHeld s' held
AreHeld-write s n w s' [] e f h = tt
AreHeld-write s n w s' (m ∷ ms) e f h =
    (h.0, h.1, rw e (ground (arith, h.2)), h.3, AreHeld-write s n w s' ms e (ground arith) h.4)

has-without : (n m : ℕ) (held : List ℕ) → has m held ≡ false → has m (without n held) ≡ false
has-without n m [] f = refl
has-without n m (k ∷ ks) f = ground (arith, has-without n m ks)

AreHeld-without :
    (s : Frames) (n : ℕ) (held : List ℕ)
    → AreHeld s held
    → AreHeld s (without n held) × (has n (without n held) ≡ false)
AreHeld-without s n [] h = (tt, refl)
AreHeld-without s n (m ∷ ms) h = ground (arith, AreHeld-without s n ms h.4, has-without n m ms, h.3)

held-bounds :
    (s : Frames) (n : ℕ) (held : List ℕ)
    → AreHeld s held
    → has n held ≡ true
    → (0 < n) × (n < bitmap_size)
held-bounds s n [] h e = cc
held-bounds s n (m ∷ ms) h e = ground (arith, held-bounds s n ms h.4)

-- what the handing out of a frame finds
pub data Granted (s : Frames) (a : ℕ) (s' : Frames) : Type 0 where
  granted :
      (n : ℕ)
      → 0 < n
      → n < bitmap_size
      → s.memory_map (pos n) ≡ 0
      → a ≡ n * 2 ^ 12
      → s' ≡ allocated s n
      → Granted s a s'
  refused : a ≡ 0 → s' ≡ record s { idx = pos bitmap_size } → Granted s a s'

pub Granted-of :
    {s s' : Frames} {a : ℕ} {held : List ℕ}
    → Inv s held
    → kalloc_frame s ≡ ok (a, s')
    → Granted s a s'
Granted-of {s} {s'} {a} v e = pick (kalloc_frame-Outcome v.valid)
  where
    pick : Outcome s 1 (kalloc_frame s) → Granted s a s'
    pick (found zero lt z f) = absurd (v.reserved z)
    pick (found (suc n) lt z f) = granted (suc n) (omega arith) lt z (cc f) (cc f)
    pick (full all f) = refused (cc f) (cc f)

Inv-Granted :
    {s s' : Frames} {a : ℕ} {held : List ℕ}
    → Inv s held
    → Granted s a s'
    → a ≢ 0
    → Inv s' (a / 2 ^ 12 ∷ held)
Inv-Granted {s} {s'} {a} {held} v (granted n pos_n lt z ea es) ne =
    let num : n ≡ a / 2 ^ 12 = omega arith in
    let free_n : has n held ≡ false = not-has s n held z v.marked in
    let h : AreHeld (allocated s n) held =
      AreHeld-write s n 1 (allocated s n) held refl free_n v.marked in
    subst (λ t. Inv t (a / 2 ^ 12 ∷ held)) (sym es)
      (subst (λ k. Inv (allocated s n) (k ∷ held)) num
        (record {
          valid = allocated-IsValid n v.valid lt;
          reserved = ground (arith, v.reserved);
          marked = (pos_n, lt, ground arith, free_n, h);
        }))
Inv-Granted v (refused ea es) ne = absurd (ne ea)

Inv-exhausted : {s s' : Frames} {held : List ℕ} → Inv s held → Granted s 0 s' → Inv s' held
Inv-exhausted v (granted n pos_n lt z ea es) = absurd (omega arith)
Inv-exhausted {s} {s'} {held} v (refused ea es) =
    subst (λ t. Inv t held) (sym es)
      (record {
        valid = exhausted-IsValid v.valid;
        reserved = v.reserved;
        marked = AreHeld-idx held v.marked;
      })
  where
    AreHeld-idx : (hs : List ℕ) → AreHeld s hs → AreHeld (record s { idx = pos bitmap_size }) hs
    AreHeld-idx [] h = tt
    AreHeld-idx (m ∷ ms) h = (h.0, h.1, h.2, h.3, AreHeld-idx ms h.4)

Inv-kfree :
    (n : ℕ) {s : Frames} {held : List ℕ}
    → Inv s held
    → has n held ≡ true
    → Inv (kfree_frame (n * 2 ^ 12) s) (without n held)
Inv-kfree n {s} {held} v e =
    let (p, lt) = held-bounds s n held v.marked e in
    let (h, gone) = AreHeld-without s n held v.marked in
    let eq = kfree_frame_lem n v.valid p lt in
    record {
      valid = kfree_frame-IsValid n v.valid p lt;
      reserved = rw eq (ground (arith, v.reserved));
      marked = AreHeld-write s n 0 (kfree_frame (n * 2 ^ 12) s) (without n held) (rw eq) gone h;
    }

-- Every call keeps the invariant: the frames held are marked and each is held once.
pub Step-Inv : {s s' : Frames} {h h' : List ℕ} → Step s h s' h' → Inv s h → Inv s' h'
Step-Inv (alloc e ne) v = Inv-Granted v (Granted-of v e) ne
Step-Inv (exhausted e) v = Inv-exhausted v (Granted-of v e)
Step-Inv (free n e) v = Inv-kfree n v e

pub Reach-Inv :
    {s : Frames} {h : List ℕ} {s' : Frames} {h' : List ℕ} → Inv s h → Reach s h s' h' → Inv s' h'
Reach-Inv v start = v
Reach-Inv v (next r st) = Step-Inv st (Reach-Inv v r)

-- Whatever was allocated and freed before, a frame that `kalloc_frame` hands out is held by nobody,
-- and its address is that of a frame of the array behind frame 0.
pub alloc_exclusive :
    {s₀ s s' : Frames} {held : List ℕ} {a : ℕ}
    → Inv s₀ []
    → Reach s₀ [] s held
    → kalloc_frame s ≡ ok (a, s')
    → a ≢ 0
    → (has (a / 2 ^ 12) held ≡ false) × (0 < a / 2 ^ 12) × (a / 2 ^ 12 < bitmap_size)
alloc_exclusive v r e ne =
    let marked = (Inv-Granted (Reach-Inv v r) (Granted-of (Reach-Inv v r) e) ne).marked in
    (marked.3, marked.0, marked.1)
