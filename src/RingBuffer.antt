-- ===== src/RingBuffer.antt =====
-- libc/kernel/ring_buffer.c. A call that changes `*cb` returns the new buffer; the section under
-- `cb->lock` is one step, so that the lock is left out. `current` is the calling process, and
-- `List Pid` are the processes that a call puts on the thread queue.
pub mod Inv
pub mod Contents
pub mod Bytes
pub mod Wake
pub mod Write
pub mod Read
pub mod Ends
pub mod Refine
mod Tests
use night_os.Base.{
  ℕ, zero, suc, ◌+◌, ◌-◌, ◌%◌, Bool, true, false, ◌&&◌, not, Option, none, some, List, [], ◌∷◌,
  ◌++◌, length, get_elem?, set, replicate, ltb, leb, ◌==◌, if◌then◌else◌, add64, sub64, to_int,
  of_int, lt_int, Run, ok, fault, blocked, out_of_fuel, ◌>>=◌, ◌>>◌,
}
use night_os.Mutex
use night_os.Mutex.{Pid, Mutex, acquire_if_free, release}

-- `circular_buffer_t`
pub record CircularBuffer : Type 0 where
  pub buffer : List ℕ
  pub head : ℕ
  pub tail : ℕ
  pub max : ℕ
  pub wait_queue_write : Mutex
  pub wait_queue_read : Mutex
  pub blocking_write : Bool

-- `ring_buffer_create`, where the two allocations succeed
pub create : ℕ → Bool → CircularBuffer
create size blocking = record {
  buffer = replicate (of_int size) 0;
  head = 0;
  tail = 0;
  max = of_int size;
  wait_queue_write = Mutex.init;
  wait_queue_read = Mutex.init;
  blocking_write = blocking;
}

-- `ring_buffer_writeable`
pub writeable : CircularBuffer → ℕ
writeable cb = to_int (
    if cb.head == cb.tail
    then sub64 cb.max 1
    else if ltb cb.tail cb.head
    then sub64 (sub64 cb.head cb.tail) 1
    else sub64 (add64 (sub64 cb.max cb.tail) cb.head) 1)

-- `ring_buffer_available`
pub available : CircularBuffer → ℕ
available cb = to_int (
    if cb.head == cb.tail
    then 0
    else if ltb cb.tail cb.head
    then add64 (sub64 cb.max cb.head) cb.tail
    else sub64 cb.tail cb.head)

-- `cb->buffer[i]`
pub load : CircularBuffer → ℕ → Run ℕ
load cb i = elim (get_elem? cb.buffer i) [ none ↦ fault | some b ↦ ok b ]

-- `cb->buffer[i] = b`
pub store : CircularBuffer → ℕ → ℕ → Run CircularBuffer
store cb i b =
    if ltb i (length cb.buffer) then ok (record cb { buffer = set cb.buffer i b }) else fault

pub mod64 : ℕ → ℕ → Run ℕ
mod64 a m = if m == 0 then fault else ok (a % m)

-- one round of the loop of `ring_buffer_write`
pub put_byte : ℕ → CircularBuffer → Run CircularBuffer
put_byte b cb = do
  cb ← store cb cb.tail b
  let tail = add64 cb.tail 1
  ok (record cb { tail = if leb cb.max tail then 0 else tail })

-- The loop of `ring_buffer_write`, for the rounds that are left and the rest of `data`.
pub put_bytes : ℕ → List ℕ → CircularBuffer → Run CircularBuffer
put_bytes zero bytes cb = ok cb
put_bytes (suc n) [] cb = fault
put_bytes (suc n) (b ∷ bytes) cb = do cb ← put_byte b cb; put_bytes n bytes cb

-- The inner loop of `ring_buffer_read`, for the room that is left in the caller's array: the bytes
-- in the order in which they are stored there.
pub get_bytes : ℕ → ℕ → CircularBuffer → Run (List ℕ × CircularBuffer)
get_bytes zero room cb = out_of_fuel
get_bytes (suc fuel) room cb = elim (lt_int 0 (available cb) && ltb 0 room) [
  | false ↦ ok ([], cb)
  | true ↦ do
    b ← load cb cb.head
    head ← mod64 (add64 cb.head 1) cb.max
    (bytes, cb) ← get_bytes fuel (room - 1) (record cb { head = head })
    ok (b ∷ bytes, cb)
]

pub data Queue : Type 0 where
  readers writers : Queue

pub queue : Queue → CircularBuffer → Mutex
queue readers cb = cb.wait_queue_read
queue writers cb = cb.wait_queue_write

pub set_queue : Queue → Mutex → CircularBuffer → CircularBuffer
set_queue readers m cb = record cb { wait_queue_read = m }
set_queue writers m cb = record cb { wait_queue_write = m }

-- `mutex_acquire_if_free` on one of the two queues
pub hold : Queue → Pid → CircularBuffer → Bool × CircularBuffer
hold q current cb = let (done, m) = acquire_if_free current (queue q cb) in (done, set_queue q m cb)

-- What the other threads make of the buffer while the caller sleeps, for each time that it does.
abbrev pub Sleeps : Type 0
Sleeps = List (CircularBuffer → CircularBuffer)

pub enqueue : Queue → Pid → CircularBuffer → CircularBuffer
unfolding queue set_queue
enqueue q current cb =
    let m = queue q cb in set_queue q (record m { waiting = m.waiting ++ current ∷ [] }) cb

-- `mutex_wait`, with the sleeps that are left
pub wait : Queue → Pid → Sleeps → CircularBuffer → Run (Sleeps × CircularBuffer)
wait q current [] cb = elim (queue q cb).owner [ none ↦ ok ([], cb) | some _ ↦ blocked ]
wait q current (other ∷ later) cb = elim (queue q cb).owner [
  | none ↦ ok (other ∷ later, cb)
  | some _ ↦ wait q current later (other (enqueue q current cb))
]

-- The end of a call: the mutex is taken if it is free, and released if it is not.
pub notify : Queue → Pid → CircularBuffer → CircularBuffer × List Pid
notify q current cb =
    let (done, held) = hold q current cb in
    let (m, woken) = release (queue q cb) in if done then (held, []) else (set_queue q m cb, woken)

-- The loop at the head of `ring_buffer_write`: `false` where the call is to return 0.
pub wait_for_room : ℕ → Pid → Sleeps → ℕ → CircularBuffer → Run (Bool × CircularBuffer)
wait_for_room zero current sleeps size cb = out_of_fuel
wait_for_room (suc fuel) current sleeps size cb = elim (lt_int (writeable cb) size) [
  | false ↦ ok (true, cb)
  | true ↦ elim cb.blocking_write [
    | false ↦ ok (false, cb)
    | true ↦ do
      (later, cb) ← wait writers current sleeps (hold writers current cb).1
      wait_for_room fuel current later size cb
  ]
]

-- `ring_buffer_write`: the number of bytes written, the buffer and the woken readers
pub write : Pid → Sleeps → ℕ → List ℕ → CircularBuffer → Run (ℕ × CircularBuffer × List Pid)
write current sleeps size bytes cb = do
  (room, cb) ← wait_for_room (length sleeps + 1) current sleeps size cb
  elim room [
    | false ↦ ok (0, cb, [])
    | true ↦ do
      cb ← put_bytes (of_int size) bytes cb
      let (cb, woken) = notify readers current cb
      ok (to_int (of_int size), cb, woken)
  ]

-- the end of `ring_buffer_read`
pub finish : Pid → List ℕ → CircularBuffer → Run (List ℕ × CircularBuffer × List Pid)
finish current bytes cb = let (cb, woken) = notify writers current cb in ok (bytes, cb, woken)

-- `ring_buffer_read`: the bytes stored in the caller's array, whose number it returns, the buffer
-- and the woken writers
pub read : Pid → Sleeps → ℕ → CircularBuffer → Run (List ℕ × CircularBuffer × List Pid)
read current sleeps size cb = do
  (bytes, cb) ← get_bytes (cb.max + 1) (of_int size) cb
  elim bytes [
    | b ∷ more ↦ finish current (b ∷ more) cb
    | [] ↦ do
      (_, cb) ← wait readers current sleeps (hold readers current cb).1
      (bytes, cb) ← get_bytes (cb.max + 1) (of_int size) cb
      elim bytes [ b ∷ more ↦ finish current (b ∷ more) cb | [] ↦ ok ([], cb, []) ]
  ]

-- `(cb->tail - 1 + cb->max) % cb->max`
pub before_tail : CircularBuffer → Run ℕ
before_tail cb = mod64 (add64 (sub64 cb.tail 1) cb.max) cb.max

-- `ring_buffer_pop`
pub pop : Pid → CircularBuffer → Run (Bool × CircularBuffer × List Pid)
pop current cb = if available cb == 0 then ok (false, cb, []) else (do
  tail ← before_tail cb
  let (cb, woken) = notify writers current (record cb { tail = tail })
  ok (true, cb, woken))

-- `ring_buffer_peek`: `none` for the return value 0, else what goes to `*data`
pub peek : ℕ → CircularBuffer → Run (Option ℕ)
peek offset cb = if not (lt_int offset (available cb)) then ok none else (do
  index ← mod64 (add64 cb.head (of_int offset)) cb.max
  b ← load cb (of_int (to_int index))
  ok (some b))

-- `ring_buffer_read_last`
pub read_last : CircularBuffer → Run (Option ℕ)
read_last cb =
    if available cb == 0
    then ok none
    else (do index ← before_tail cb; b ← load cb (of_int (to_int index)); ok (some b))

-- `ring_buffer_discard_readable`
pub discard_readable : CircularBuffer → CircularBuffer
discard_readable cb = record cb { head = cb.tail }
