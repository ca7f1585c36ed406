-- ===== src/Pty/Tests.antt =====
-- The theorems about the pseudo terminal at a concrete pair.
use night_os.Base.{ℕ, ◌-◌, ◌≡◌, refl, true, false, none, List, [], ◌∷◌, arith, Returns}
use Prim.Native.Nat.{min}
use night_os.Base.{some, take, drop}
use night_os.Mutex
use night_os.RingBuffer.{CircularBuffer}
use night_os.RingBuffer.Inv.{IsValid}
use night_os.RingBuffer.Contents.{contents}
use night_os.Pty.{Pty, write_to_input, slave_read}
use night_os.Pty.Reading.{slave_read-line}
use night_os.Pty.Newline.{newline_end}
use night_os.Pty.Echo.{Canonical}
use night_os.Pty.Lines.{edit_line, write_to_input-edit_line}

abbrev buffer_of : List ℕ → ℕ → ℕ → CircularBuffer
buffer_of bytes head tail = record {
  buffer = bytes;
  head = head;
  tail = tail;
  max = 4;
  wait_queue_write = Mutex.init;
  wait_queue_read = Mutex.init;
  blocking_write = false;
}

-- `a` and a newline are waiting, and there is room for one more byte.
abbrev pair : Pty
pair = record {
  input_buffer = buffer_of (10 ∷ 0 ∷ 0 ∷ b'a' ∷ []) 3 1;
  output_buffer = buffer_of (0 ∷ 0 ∷ 0 ∷ 0 ∷ []) 0 0;
  icanon = true;
  echo = true;
  session_leader = none;
  raw = false;
  console = true;
  wait_queue_read = Mutex.init;
  shown = [];
  thread_queue = [];
}

input-IsValid : IsValid pair.input_buffer
input-IsValid = omega arith

pair-Canonical : Canonical pair
pair-Canonical = record {
  input = record { valid = input-IsValid; nonblocking = refl };
  output = record { valid = omega arith; nonblocking = refl };
  icanon = refl;
  raw = refl;
}

line_ends : newline_end (contents pair.input_buffer) ≡ some 2
unfolding newline_end contents
line_ends = refl

write_to_input-edit_line_example :
    Returns (write_to_input 7 (8 ∷ b'b' ∷ b'c' ∷ b'd' ∷ []) pair) λ r.
      let (count, ended, line) =
        edit_line
          (pair.input_buffer.max - 1)
          (8 ∷ b'b' ∷ b'c' ∷ b'd' ∷ [])
          (contents pair.input_buffer) in
      (r.0 ≡ count) × (contents r.1.input_buffer ≡ line)
write_to_input-edit_line_example =
    write_to_input-edit_line 7 (8 ∷ b'b' ∷ b'c' ∷ b'd' ∷ []) pair pair-Canonical

slave_read-line_example : Returns (slave_read 7 [] 5 pair) λ r.
    (r.0 ≡ take (min 2 5) (contents pair.input_buffer))
    × (contents r.1.input_buffer ≡ drop (min 2 5) (contents pair.input_buffer))
slave_read-line_example = slave_read-line 7 [] 5 2 pair input-IsValid refl line_ends (omega arith)
