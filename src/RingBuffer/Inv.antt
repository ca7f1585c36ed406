-- ===== src/RingBuffer/Inv.antt =====
-- The representation invariant of `circular_buffer_t`, and the counts under it.
use night_os.Base.{
  ℕ, ◌+◌, ◌-◌, ◌^◌, ◌<◌, ◌≡◌, Bool, ◌%◌, arith, length, length-replicate, ltb, if◌then◌else◌,
  mod_once,
}
use night_os.RingBuffer.{CircularBuffer, create, writeable, available}

-- `max` fits an `int`, since `ring_buffer_create` takes it as one.
pub record IsValid (cb : CircularBuffer) : Type 0 where
  pub storage : length cb.buffer ≡ cb.max
  pub small : cb.max < 2 ^ 31
  pub head_in : cb.head < cb.max
  pub tail_in : cb.tail < cb.max

-- the number of bytes held, in plain arithmetic
abbrev pub held : CircularBuffer → ℕ
held cb = if ltb cb.tail cb.head then cb.max - cb.head + cb.tail else cb.tail - cb.head

pub available-eq-held : {cb : CircularBuffer} → IsValid cb → available cb ≡ held cb
unfolding available
available-eq-held v = ground arith

pub writeable-eq-held : {cb : CircularBuffer} → IsValid cb → writeable cb + held cb + 1 ≡ cb.max
unfolding writeable
writeable-eq-held v = ground arith

-- In a valid buffer the free and the held bytes make up the capacity `max - 1`: the one byte that
-- tells a full buffer from an empty one is never counted, and no sum or cast wraps.
pub writeable-add-available :
    {cb : CircularBuffer} → IsValid cb → writeable cb + available cb + 1 ≡ cb.max
writeable-add-available v = omega (arith, available-eq-held v, writeable-eq-held v)

pub held-lt-max : {cb : CircularBuffer} → IsValid cb → held cb < cb.max
held-lt-max v = ground arith

-- The `tail` is where the held bytes end.
pub tail-eq-index : {cb : CircularBuffer} → IsValid cb → cb.tail ≡ (cb.head + held cb) % cb.max
tail-eq-index {cb} v = ground (arith, mod_once (cb.head + held cb) cb.max)

-- `ring_buffer_create` of a size from 1 to 2 ^ 31 - 1 gives a valid buffer.
pub create-IsValid :
    (size : ℕ) (blocking : Bool) → 0 < size → size < 2 ^ 31 → IsValid (create size blocking)
unfolding create
create-IsValid size blocking h k = ground (arith, length-replicate {A = ℕ} size 0)
