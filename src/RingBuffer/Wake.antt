-- ===== src/RingBuffer/Wake.antt =====
-- What the end of a call, with its wake-up, leaves alone.
use night_os.Base.{ℕ, ◌+◌, ◌-◌, ◌%◌, ◌≡◌, ap, arith, length, get_or, if◌then◌else◌, ltb}
use night_os.Mutex.{Pid}
use night_os.RingBuffer.{CircularBuffer, notify, hold, queue, set_queue, Queue, readers, writers}
use night_os.RingBuffer.Inv.{IsValid, held}
use night_os.RingBuffer.Contents.{tabulate, length-tabulate, byte_at, contents}

-- Bytes, capacity and mode are those of `cb`; only the two wait queues may differ.
pub record SameBytes (cb cb' : CircularBuffer) : Type 0 where
  pub buffer : cb'.buffer ≡ cb.buffer
  pub head : cb'.head ≡ cb.head
  pub tail : cb'.tail ≡ cb.tail
  pub max : cb'.max ≡ cb.max
  pub blocking : cb'.blocking_write ≡ cb.blocking_write

pub SameBytes-IsValid : {cb cb' : CircularBuffer} → SameBytes cb cb' → IsValid cb → IsValid cb'
SameBytes-IsValid {cb} {cb'} s v = ground (arith, ap (length {A = ℕ}) s.buffer)

pub contents-SameBytes : {cb cb' : CircularBuffer} → SameBytes cb cb' → contents cb' ≡ contents cb
unfolding contents
contents-SameBytes s = λ i.
    tabulate
      (if ltb (s.tail i) (s.head i) then s.max i - s.head i + s.tail i else s.tail i - s.head i)
      (λ k. get_or (s.buffer i) ((s.head i + k) % s.max i) 0)

pub notify-SameBytes :
    (q : Queue) (current : Pid) (cb : CircularBuffer) → SameBytes cb (notify q current cb).0
unfolding notify hold set_queue queue
notify-SameBytes readers current cb = ground arith
notify-SameBytes writers current cb = ground arith

pub length-contents : (cb : CircularBuffer) → length (contents cb) ≡ held cb
unfolding contents
length-contents cb = length-tabulate (held cb) (byte_at cb)
