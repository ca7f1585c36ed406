-- ===== src/Pty/Newline.antt =====
-- What `find_newline` finds in the bytes held.
use night_os.Base.{
  ℕ, suc, ◌+◌, ◌≡◌, refl, ap, ◌∙◌, sym, true, false, Option, none, some, List, [], ◌∷◌, length,
  get_elem?, ◌==◌, arith, ok,
}
use night_os.RingBuffer
use night_os.RingBuffer.{CircularBuffer}
use night_os.RingBuffer.Inv.{IsValid, held, held-lt-max, available-eq-held}
use night_os.RingBuffer.Contents.{contents}
use night_os.RingBuffer.Wake.{length-contents}
use night_os.RingBuffer.Ends.{peek-get_elem?}
use night_os.Pty.{find_loop, find_newline}

-- the position behind the first newline of a list
unfoldable pub newline_end : List ℕ → Option ℕ
newline_end [] = none
newline_end (c ∷ l) = elim (c == b'\n') [
  | true ↦ some 1
  | false ↦ elim (newline_end l) [ none ↦ none | some n ↦ some (n + 1) ]
]

abbrev pub shift : ℕ → Option ℕ → Option ℕ
shift i none = none
shift i (some n) = some (n + i)

shift_zero : (o : Option ℕ) → shift 0 o ≡ o
shift_zero none = refl
shift_zero (some n) = ap some (omega arith)

find_loop-newline_end :
    (cb : CircularBuffer) (l : List ℕ) (i : ℕ)
    → IsValid cb
    → i + length l ≡ held cb
    → ((k : ℕ) → get_elem? (contents cb) (i + k) ≡ get_elem? l k)
    → find_loop cb (length l) i ≡ ok (shift i (newline_end l))
unfolding find_loop newline_end
find_loop-newline_end cb [] i v e h = refl
find_loop-newline_end cb (c ∷ l) i v e h =
    let at_i : RingBuffer.peek i cb ≡ ok (some c) =
      peek-get_elem? {cb = cb} i v (omega (arith, held-lt-max v))
      ∙ ap ok (ap (get_elem? (contents cb)) (omega arith) ∙ h 0) in
    let ih =
      find_loop-newline_end cb l (i + 1) v (omega arith)
        (λ k. ap (get_elem? (contents cb)) (omega arith) ∙ h (suc k)) in
    ground (arith, at_i, ih)

-- `find_newline` on a valid buffer returns the position behind the first newline of the bytes held.
pub find_newline-newline_end :
    {cb : CircularBuffer} → IsValid cb → find_newline cb ≡ ok (newline_end (contents cb))
unfolding find_newline
find_newline-newline_end {cb} v =
    ap (λ n. find_loop cb n 0) (available-eq-held v ∙ sym (length-contents cb))
    ∙ find_loop-newline_end cb (contents cb) 0 v (omega (arith, length-contents cb))
        (λ k. ap (get_elem? (contents cb)) (omega arith))
    ∙ ap ok (shift_zero (newline_end (contents cb)))
