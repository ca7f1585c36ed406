-- ===== src/Pty/Reading.antt =====
-- What `pty_slave_read` takes in canonical mode when a line is there.
use Prim.Native.Nat.{min}
use night_os.Base.{
  ℕ, ◌<◌, ◌≤◌, ◌≡◌, ap, ◌∙◌, true, some, List, [], ◌∷◌, ◌++◌, length, take, drop, ◌==◌, arith, ok,
  Returns, to_int, Bool-cases, Option-cases, inl, inr,
}
use native.Mathlib.Nat.{mod-eq_of_lt}
use native.Mathlib.Numerals.{add-one}
use night_os.Mutex.{Pid}
use night_os.RingBuffer.Inv.{IsValid, held-lt-max}
use night_os.RingBuffer.Contents.{contents}
use night_os.RingBuffer.Wake.{length-contents}
use night_os.RingBuffer.Read.{read-ReadFrom}
use night_os.Pty.{Pty, Sleeps, await_line, read_input, slave_read}
use night_os.Pty.Newline.{newline_end, find_newline-newline_end}

newline_end-le : (l : List ℕ) (n : ℕ) → newline_end l ≡ some n → (0 < n) × (n ≤ length l)
unfolding newline_end
newline_end-le [] n e = absurd (ground (arith, e))
newline_end-le (c ∷ l) n e = elim (Bool-cases (c == b'\n')) [
  | inl here ↦ ground (arith, here, e)
  | inr other ↦ elim (Option-cases (newline_end l)) [
    | inl missing ↦ absurd (ground (arith, other, missing, e))
    | inr (k, found) ↦ let le = newline_end-le l k found in ground (arith, other, found, e, le)
  ]
]

-- In canonical mode `pty_slave_read`, for a size that is not 0, of a valid input that holds a newline
-- returns without sleeping. It takes the bytes up to the first newline, or as many of them as are
-- asked for.
pub slave_read-line :
    (current : Pid) (sleeps : Sleeps) (size n : ℕ) (t : Pty)
    → IsValid t.input_buffer
    → t.icanon ≡ true
    → newline_end (contents t.input_buffer) ≡ some n
    → 0 < size
    → Returns (slave_read current sleeps size t) λ r.
      (r.0 ≡ take (min n size) (contents t.input_buffer))
      × (contents r.1.input_buffer ≡ drop (min n size) (contents t.input_buffer))
unfolding slave_read await_line read_input
slave_read-line current sleeps size n t v canonical e some_room =
    let bound = newline_end-le (contents t.input_buffer) n e in
    let len = length-contents t.input_buffer in
    let run_find = find_newline-newline_end v ∙ ap ok e in
    let (r, run, (bytes, rest, _, _, _)) =
      read-ReadFrom current [] (min n size) v (omega (arith, bound, len)) (omega (arith, bound))
        (omega (arith, bound, len, held-lt-max v, v.small)) in
    let cast : to_int (min n size) ≡ min n size =
      mod-eq_of_lt (omega (arith, bound, len, held-lt-max v, v.small)) in
    (
      (r.0, record t { input_buffer = r.1; thread_queue = t.thread_queue ++ r.2 }),
      ground (arith, canonical, add-one (length sleeps), run_find, cast, run),
      (bytes, rest),
    )
