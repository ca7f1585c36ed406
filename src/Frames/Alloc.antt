-- ===== src/Frames/Alloc.antt =====
-- What `kalloc_frame` finds.
use night_os.Base.{
  ℕ, zero, suc, ◌+◌, ◌-◌, ◌*◌, ◌^◌, ◌≡◌, ◌≢◌, ◌<◌, ◌≤◌, ap, ◌∙◌, sym, Bool, true, false, arith, Run,
  ok, lt→ltb,
}
use mathlib.Core.Path.{subst}
use native.Mathlib.Decide.{ℕ_discrete, dec_lt}
use night_os.Base.Int.{pos, ltb_ℤ}
use night_os.Frames.{
  Frames, bitmap_size, write, mark_page, page_to_address, scan, rounds, kalloc_frame,
}

-- A frame of the array, by its number; anything but 0 marks it as used.
abbrev pub Used : Frames → ℕ → Type 0
Used s n = s.memory_map (pos n) ≢ 0

-- The cursor stands in the array or just behind it, and the word that lies behind the array, which
-- the loop reads there, is not 0.
pub record IsValid (s : Frames) : Type 0 where
  pub cursor : ℕ
  pub at_cursor : s.idx ≡ pos cursor
  pub cursor_le : cursor ≤ bitmap_size
  pub fence : s.memory_map (pos bitmap_size) ≢ 0

-- a frame found, marked and returned
abbrev pub allocated : Frames → ℕ → Frames
allocated s n = record { memory_map = write s.memory_map (pos n) 1; idx = pos n }

pub data Outcome (s : Frames) (from : ℕ) (r : Run (ℕ × Frames)) : Type 0 where
  found :
      (n : ℕ)
      → n < bitmap_size
      → s.memory_map (pos n) ≡ 0
      → r ≡ ok (n * 2 ^ 12, allocated s n)
      → Outcome s from r
  full :
      ((n : ℕ) → from ≤ n → n < bitmap_size → Used s n)
      → r ≡ ok (0, record s { idx = pos bitmap_size })
      → Outcome s from r

abbrev pub at : Frames → ℕ → Frames
at s i = record s { idx = pos i }

pub page_to_address-pos : (i : ℕ) → i < bitmap_size → page_to_address (pos i) ≡ i * 2 ^ 12
unfolding page_to_address
page_to_address-pos i h = ground arith

module _ (s : Frames) (restart : Bool) (fuel i : ℕ) where
  hit :
      i < bitmap_size
      → s.memory_map (pos i) ≡ 0
      → scan (suc fuel) restart (at s i) ≡ ok (i * 2 ^ 12, allocated s i)
  unfolding scan mark_page
  hit h e = ground (arith, page_to_address-pos i h)

  next :
      i < bitmap_size
      → Used s i
      → scan (suc fuel) restart (at s i) ≡ scan fuel restart (at s (i + 1))
  unfolding scan
  next h e = ground arith

module _ (s : Frames) (fuel : ℕ) (fence : s.memory_map (pos bitmap_size) ≢ 0) where
  again : scan (suc fuel) true (at s bitmap_size) ≡ scan fuel false (at s 1)
  unfolding scan
  again = ground arith

  stop : scan (suc fuel) false (at s bitmap_size) ≡ ok (0, at s bitmap_size)
  unfolding scan
  stop = ground arith

widen :
    {s : Frames} {r r' : Run (ℕ × Frames)} (i : ℕ)
    → Used s i
    → r ≡ r'
    → Outcome s (i + 1) r'
    → Outcome s i r
widen i u e (found n h z f) = found n h z (e ∙ f)
widen {s} i u e (full all f) =
    full
      (λ n le lt. elim (ℕ_discrete i n) [
        | yes same ↦ subst (Used s) same u
        | no ne ↦ all n (omega arith) lt
      ])
      (e ∙ f)

-- the last pass
last_pass :
    (fuel i : ℕ) (s : Frames)
    → s.memory_map (pos bitmap_size) ≢ 0
    → i ≤ bitmap_size
    → bitmap_size - i < fuel
    → Outcome s i (scan fuel false (at s i))
last_pass zero i s fence h f = absurd (omega arith)
last_pass (suc fuel) i s fence h f = elim (dec_lt i bitmap_size) [
  | yes p ↦ elim (ℕ_discrete (s.memory_map (pos i)) 0) [
    | yes z ↦ found i p z (hit s false fuel i p z)
    | no u ↦
        widen i u (next s false fuel i p u)
          (last_pass fuel (i + 1) s fence (omega arith) (omega arith))
  ]
  | no p ↦
      let e : i ≡ bitmap_size = omega arith in
      full (λ n le lt. absurd (omega arith))
        (ap (λ k. scan (suc fuel) false (at s k)) e ∙ stop s fuel fence)
]

from_one : {s : Frames} {r r' : Run (ℕ × Frames)} (i : ℕ) → r ≡ r' → Outcome s 1 r' → Outcome s 1 r
from_one i e (found n h z f) = found n h z (e ∙ f)
from_one i e (full all f) = full all (e ∙ f)

-- the first pass, with another one from frame 1 on to follow
first_pass :
    (fuel i : ℕ) (s : Frames)
    → s.memory_map (pos bitmap_size) ≢ 0
    → i ≤ bitmap_size
    → bitmap_size - i + bitmap_size < fuel
    → Outcome s 1 (scan fuel true (at s i))
first_pass zero i s fence h f = absurd (omega arith)
first_pass (suc fuel) i s fence h f = elim (dec_lt i bitmap_size) [
  | yes p ↦ elim (ℕ_discrete (s.memory_map (pos i)) 0) [
    | yes z ↦ found i p z (hit s true fuel i p z)
    | no u ↦
        from_one i (next s true fuel i p u)
          (first_pass fuel (i + 1) s fence (omega arith) (omega arith))
  ]
  | no p ↦
      let e : i ≡ bitmap_size = omega arith in
      from_one i (ap (λ k. scan (suc fuel) true (at s k)) e ∙ again s fuel fence)
        (last_pass fuel 1 s fence (omega arith) (omega arith))
]

narrow : {s : Frames} {r : Run (ℕ × Frames)} → Outcome s 0 r → Outcome s 1 r
narrow (found n h z f) = found n h z f
narrow (full all f) = full (λ n le lt. all n (omega arith) lt) f

-- On a valid state `kalloc_frame` returns, and either it returns the address of a frame that was
-- unused, marks it and moves the cursor there, or it returns 0 and every frame but frame 0 is used.
pub kalloc_frame-Outcome : {s : Frames} → IsValid s → Outcome s 1 (kalloc_frame s)
unfolding kalloc_frame
kalloc_frame-Outcome {s} v = elim (ℕ_discrete v.cursor 0) [
  | yes e ↦
      subst (λ i. Outcome s 1 (scan rounds (ltb_ℤ (pos 0) i) (record s { idx = i })))
        (sym (v.at_cursor ∙ ap pos e))
        (narrow (last_pass rounds 0 s v.fence (omega arith) (omega arith)))
  | no ne ↦
      subst (λ i. Outcome s 1 (scan rounds (ltb_ℤ (pos 0) i) (record s { idx = i })))
        (sym v.at_cursor)
        (rw (lt→ltb 0 v.cursor (omega arith))
          (first_pass rounds v.cursor s v.fence v.cursor_le (omega arith)))
]
