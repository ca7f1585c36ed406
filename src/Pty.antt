-- ===== src/Pty.antt =====
-- kernel/fs/pty.c: the line discipline of a pseudo terminal. The flags of `c_lflag` are Booleans.
-- `shown` is what was given to `terminal_putchar`, `thread_queue` whom the calls have woken.
pub mod Newline
pub mod Echo
pub mod Typing
pub mod Lines
pub mod Reading
mod Tests
use night_os.Base.{
  ℕ, zero, suc, ◌+◌, ◌^◌, Bool, true, false, ◌||◌, ◌&&◌, not, Option, none, some, List, [], ◌∷◌,
  ◌++◌, length, ltb, leb, ◌==◌, if◌then◌else◌, min, to_int, lt_int, Run, ok, fault, blocked,
  out_of_fuel, ◌>>=◌,
}
use night_os.Mutex
use night_os.Mutex.{Pid, Mutex, acquire_if_free, release}
use night_os.RingBuffer
use night_os.RingBuffer.{CircularBuffer}

-- `struct pty_data` with the queue of its pair that the calls below use; `none` is session leader -1
pub record Pty : Type 0 where
  pub input_buffer : CircularBuffer
  pub output_buffer : CircularBuffer
  pub icanon : Bool
  pub echo : Bool
  pub session_leader : Option Pid
  pub raw : Bool
  pub console : Bool
  pub wait_queue_read : Mutex
  pub shown : List ℕ
  pub thread_queue : List Pid

-- `pty_create_pair` of pair `index`, whose allocations succeed
pub create_pair : ℕ → Pty
create_pair index = record {
  input_buffer = RingBuffer.create 1024 false;
  output_buffer = RingBuffer.create 1024 false;
  icanon = index == 0;
  echo = index == 0;
  session_leader = none;
  raw = false;
  console = index == 0;
  wait_queue_read = Mutex.init;
  shown = [];
  thread_queue = [];
}

-- the effect of `pty_get_slave`
pub get_slave : Pid → Pty → Pty
get_slave current t = elim t.session_leader [
  | none ↦ record t { session_leader = some current }
  | some p ↦ t
]

-- The loop of `find_newline`, for the rounds that are left; `none` is -1.
pub find_loop : CircularBuffer → ℕ → ℕ → Run (Option ℕ)
find_loop cb zero i = ok none
find_loop cb (suc rounds) i = do
  c ← RingBuffer.peek i cb
  elim c [
    | none ↦ find_loop cb rounds (i + 1)
    | some b ↦ elim (b == b'\n') [ true ↦ ok (some (i + 1)) | false ↦ find_loop cb rounds (i + 1) ]
  ]

-- `find_newline`
pub find_newline : CircularBuffer → Run (Option ℕ)
find_newline cb = find_loop cb (RingBuffer.available cb) 0

-- `pty_write`, of one byte
pub write_byte : Pid → ℕ → Pty → Run Pty
write_byte current c t = do
  (n, cb, woken) ← RingBuffer.write current [] 1 (c ∷ []) t.output_buffer
  ok (record t { output_buffer = cb; thread_queue = t.thread_queue ++ woken })

-- `echo_char`
pub echo_char : Pid → ℕ → Pty → Run Pty
echo_char current c t =
    if t.console
    then ok (record t { shown = t.shown ++ c ∷ [] })
    else write_byte current c (get_slave current t)

-- `signal_input_ready`
pub signal_input_ready : Pid → Pty → Pty
signal_input_ready current t =
    let (done, held) = acquire_if_free current t.wait_queue_read in
    let (free, woken) = release t.wait_queue_read in
    if done
    then record t { wait_queue_read = held }
    else record t { wait_queue_read = free; thread_queue = t.thread_queue ++ woken }

-- `ring_buffer_write(pty->input_buffer, 1, &c) > 0`
pub put_input : Pid → ℕ → Pty → Run (Bool × Pty)
put_input current c t = do
  (n, cb, woken) ← RingBuffer.write current [] 1 (c ∷ []) t.input_buffer
  ok (lt_int 0 n, record t { input_buffer = cb; thread_queue = t.thread_queue ++ woken })

pub when_echo : Bool → Pid → ℕ → Pty → Run Pty
when_echo on current c t = if on then echo_char current c t else ok t

-- how the loop of `pty_write_to_input` goes on after a byte: with the next one, out of the loop by
-- `break`, or out of it by `line_complete`
pub data Next : Type 0 where
  more broken complete : Next

-- The byte is stored and echoed, or the buffer is full: whether it counts as written.
pub store_char : Pid → ℕ → Bool → Next → Next → Pty → Run (Bool × Next × Pty)
store_char current c echo stored full t = do
  (room, t) ← put_input current c t
  if room then (do t ← when_echo echo current c t; ok (true, stored, t)) else ok (false, full, t)

-- the case of a backspace
pub erase_char : Pid → Pty → Run (Bool × Next × Pty)
erase_char current t =
    if lt_int 0 (RingBuffer.available t.input_buffer)
    then (do
      (popped, cb, woken) ← RingBuffer.pop current t.input_buffer
      let on = t.echo
      t ←
          when_echo on current 8
            (record t { input_buffer = cb; thread_queue = t.thread_queue ++ woken })
      t ← when_echo on current b' ' t
      t ← when_echo on current 8 t
      ok (true, more, t))
    else ok (true, more, t)

-- the body of the loop of `pty_write_to_input`
pub type_char : Pid → ℕ → Pty → Run (Bool × Next × Pty)
type_char current c t =
    if not t.icanon || t.raw
    then store_char current c (t.echo && not (c == 8)) more broken t
    else if c == 8
    then erase_char current t
    else if c == b'\n' || c == b'\r'
    then store_char current c t.echo complete complete t
    else store_char current c t.echo more complete t

-- The loop of `pty_write_to_input`: the count of bytes written, and `line_complete`.
pub type_chars : Pid → List ℕ → Pty → Run (ℕ × Bool × Pty)
type_chars current [] t = ok (0, false, t)
type_chars current (c ∷ bytes) t = do
  (counted, next, t) ← type_char current c t
  let n = if counted then 1 else 0
  elim next [
    | broken ↦ ok (n, false, t)
    | complete ↦ ok (n, true, t)
    | more ↦ do (written, line, t) ← type_chars current bytes t; ok (n + written, line, t)
  ]

-- `pty_write_to_input`, of a pair that exists
pub write_to_input : Pid → List ℕ → Pty → Run (ℕ × Pty)
write_to_input current bytes t = do
  (written, line, t) ← type_chars current bytes t
  ok (written, if (not t.icanon || t.raw) || line then signal_input_ready current t else t)

-- What the other processes make of the pair while the reader sleeps, for each time that it does.
abbrev pub Sleeps : Type 0
Sleeps = List (Pty → Pty)

-- `mutex_wait` on `wait_queue_read`
pub wait_input : Pid → Sleeps → Pty → Run (Sleeps × Pty)
wait_input current [] t = elim t.wait_queue_read.owner [ none ↦ ok ([], t) | some p ↦ blocked ]
wait_input current (other ∷ later) t = elim t.wait_queue_read.owner [
  | none ↦ ok (other ∷ later, t)
  | some p ↦
      let m = t.wait_queue_read in
      let asleep = record t {
        wait_queue_read = record m { waiting = m.waiting ++ current ∷ [] };
      } in
      wait_input current later (other asleep)
]

-- the loop of `pty_slave_read`, up to a position behind a newline
pub await_line : ℕ → Pid → Sleeps → Pty → Run (ℕ × Pty)
await_line zero current sleeps t = out_of_fuel
await_line (suc fuel) current sleeps t = do
  found ← find_newline t.input_buffer
  elim found [
    | some n ↦ ok (n, t)
    | none ↦ do
      let held = (acquire_if_free current t.wait_queue_read).1
      (later, t) ← wait_input current sleeps (record t { wait_queue_read = held })
      await_line fuel current later t
  ]

-- `ring_buffer_read` of the input
pub read_input : Pid → ℕ → Pty → Run (List ℕ × Pty)
read_input current size t = do
  (bytes, cb, woken) ← RingBuffer.read current [] size t.input_buffer
  ok (bytes, record t { input_buffer = cb; thread_queue = t.thread_queue ++ woken })

-- `pty_slave_read`, where in raw mode there is something to read
pub slave_read : Pid → Sleeps → ℕ → Pty → Run (List ℕ × Pty)
slave_read current sleeps size t =
    if t.icanon
    then (do
      (n, t) ← await_line (length sleeps + 1) current sleeps t
      read_input current (to_int (min n size)) t)
    else read_input current (to_int size) t

-- the requests of `pty_ioctl`, with what `args` points to; a `termios` by the two flags used here
pub data Request : Type 0 where
  tcgets tiocgpgrp unknown : Request
  tcsets tcsetsw tcsetsf : Bool → Bool → Request
  tiocspgrp : Pid → Request

pub data Answer : Type 0 where
  flags : Bool → Bool → Answer
  leader : Option Pid → Answer
  success enosys : Answer

-- `pty_ioctl`
pub ioctl : Request → Pty → Answer × Pty
ioctl tcgets t = (flags t.icanon t.echo, t)
ioctl (tcsets icanon echo) t = (success, record t { icanon = icanon; echo = echo })
ioctl (tcsetsw icanon echo) t = (success, record t { icanon = icanon; echo = echo })
ioctl (tcsetsf icanon echo) t = (
  success,
  record t {
    input_buffer = RingBuffer.discard_readable t.input_buffer;
    icanon = icanon;
    echo = echo;
  },
)
ioctl tiocgpgrp t = (leader t.session_leader, t)
ioctl (tiocspgrp p) t = (success, record t { session_leader = some p })
ioctl unknown t = (enosys, t)

-- `pty_poll`: whether `POLLIN` is among the events returned, if it is asked for
pub poll : Bool → Pty → Run Bool
poll asked t =
    if not asked
    then ok false
    else if t.icanon
    then (do found ← find_newline t.input_buffer; ok (elim found [ none ↦ false | some n ↦ true ]))
    else ok (not (RingBuffer.available t.input_buffer == 0))
