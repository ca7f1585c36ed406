-- ===== src/RingBuffer/Read.antt =====
-- `ring_buffer_read`: bytes that are there, and bytes that the caller waits for.
use night_os.Base.{
  ℕ, zero, suc, ◌+◌, ◌^◌, ◌<◌, ◌≡◌, ◌≢◌, refl, ◌∙◌, List, [], ◌∷◌, arith, length, take, drop, none,
  ok, Returns, of_int, blocked,
}
use native.Mathlib.Numerals.{add-one}
use night_os.Mutex.{Pid, acquire_if_free}
use night_os.RingBuffer.{
  CircularBuffer, Sleeps, read, notify, hold, queue, set_queue, Queue, readers, writers, finish,
  wait, get_bytes, enqueue,
}
use night_os.RingBuffer.Inv.{IsValid, held, held-lt-max, available-eq-held}
use night_os.RingBuffer.Contents.{contents}
use night_os.RingBuffer.Bytes.{Took, get_bytes-Took}
use night_os.RingBuffer.Wake.{
  SameBytes-IsValid, contents-SameBytes, notify-SameBytes, length-contents,
}

abbrev pub ReadFrom : ℕ → CircularBuffer → List ℕ × CircularBuffer × List Pid → Type 0
ReadFrom size cb (bytes, cb', woken) =
    (bytes ≡ take size (contents cb))
    × (contents cb' ≡ drop size (contents cb))
    × IsValid cb'
    × (cb'.max ≡ cb.max)
    × (cb'.blocking_write ≡ cb.blocking_write)

pub finish-ReadFrom :
    (current : Pid) (size : ℕ) (cb : CircularBuffer) (r : List ℕ × CircularBuffer)
    → Took size cb r
    → Returns (finish current r.0 r.1) (ReadFrom size cb)
unfolding finish
finish-ReadFrom current size cb (bytes, cb') t =
    let s = notify-SameBytes writers current cb' in
    (
      (bytes, (notify writers current cb').0, (notify writers current cb').1),
      refl,
      (
        t.bytes,
        contents-SameBytes s ∙ t.contents,
        SameBytes-IsValid s t.valid,
        s.max ∙ t.same.max,
        s.blocking ∙ t.same.blocking,
      ),
    )

pub take_ne_nil : (n : ℕ) (l : List ℕ) → 0 < n → 0 < length l → take n l ≢ []
take_ne_nil zero l h k = absurd (omega arith)
take_ne_nil (suc n) [] h k = absurd (omega arith)
take_ne_nil (suc n) (x ∷ l) h k = λ e. cc

-- A read of a buffer that holds bytes takes the oldest ones, as many as are asked for and there.
pub read-ReadFrom :
    (current : Pid) (sleeps : Sleeps) (size : ℕ) {cb : CircularBuffer}
    → IsValid cb
    → 0 < held cb
    → 0 < size
    → size < 2 ^ 31
    → Returns (read current sleeps size cb) (ReadFrom size cb)
unfolding read
read-ReadFrom current sleeps size {cb} v some_held h small =
    let (r, run, t) = get_bytes-Took (cb.max + 1) size cb v (omega (arith, held-lt-max v)) in
    let (out, done, p) = finish-ReadFrom current size cb r t in
    (out, ground (arith, run, done, t.bytes, take_ne_nil size (contents cb), length-contents cb), p)

get_bytes_empty :
    (fuel room : ℕ) {cb : CircularBuffer}
    → IsValid cb
    → held cb ≡ 0
    → get_bytes (suc fuel) room cb ≡ ok ([], cb)
unfolding get_bytes
get_bytes_empty fuel room v h = ground (arith, available-eq-held v)

-- the buffer as the caller leaves it when it goes to sleep on a queue that it has made busy
abbrev pub asleep : Queue → Pid → CircularBuffer → CircularBuffer
asleep q current cb = enqueue q current (hold q current cb).1

wait-hold :
    (current : Pid) (other : CircularBuffer → CircularBuffer) (cb : CircularBuffer)
    {cb' : CircularBuffer}
    → other (asleep readers current cb) ≡ cb'
    → (queue readers cb').owner ≡ none
    → wait readers current (other ∷ []) (hold readers current cb).1 ≡ ok ([], cb')
unfolding wait hold queue set_queue acquire_if_free enqueue
wait-hold current other cb e h = ground arith

-- A read of an empty buffer that nobody fills does not return.
pub read_blocked :
    (current : Pid) (size : ℕ) {cb : CircularBuffer}
    → IsValid cb
    → held cb ≡ 0
    → read current [] size cb ≡ blocked
unfolding read wait hold queue set_queue acquire_if_free
read_blocked current size {cb} v h =
    ground (arith, add-one cb.max, get_bytes_empty cb.max (of_int size) v h)

-- A read of an empty valid buffer sleeps. If it is woken with the queue free and bytes in a valid
-- buffer, it takes as many of them as are there and asked for.
pub read_woken :
    (current : Pid) (other : CircularBuffer → CircularBuffer) (size : ℕ) {cb cb' : CircularBuffer}
    → IsValid cb
    → held cb ≡ 0
    → other (asleep readers current cb) ≡ cb'
    → (queue readers cb').owner ≡ none
    → IsValid cb'
    → 0 < held cb'
    → 0 < size
    → size < 2 ^ 31
    → Returns (read current (other ∷ []) size cb) (ReadFrom size cb')
unfolding read
read_woken current other size {cb} {cb'} v h e free v' some_held positive small =
    let (r, run, t) = get_bytes-Took (cb'.max + 1) size cb' v' (omega (arith, held-lt-max v')) in
    let (out, done, p) = finish-ReadFrom current size cb' r t in
    (
      out,
      ground (
        arith,
        add-one cb.max,
        get_bytes_empty cb.max (of_int size) v h,
        wait-hold current other cb e free,
        run,
        done,
        t.bytes,
        take_ne_nil size (contents cb'),
        length-contents cb',
      ),
      p,
    )
