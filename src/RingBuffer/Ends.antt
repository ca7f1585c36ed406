-- ===== src/RingBuffer/Ends.antt =====
-- The calls of ring_buffer.c that look at one byte or drop some.
use night_os.Base.{
  ℕ, suc, ◌+◌, ◌-◌, ◌%◌, ◌^◌, ◌≤◌, ◌<◌, ◌≡◌, refl, ap, sym, ◌∙◌, [], ◌∷◌, ◌++◌, arith, length,
  get_or, get_elem?, get_elem?-ge, some, none, if◌then◌else◌, ok, mod_once, ◌==◌,
  get_elem?-eq-get_or, true, false,
}
use native.Mathlib.Decide.{ℕ_discrete, dec_lt}
use night_os.Fifo.{last?, last?-snoc}
use night_os.Mutex.{Pid}
use night_os.RingBuffer.{
  CircularBuffer, pop, peek, read_last, discard_readable, notify, before_tail, load, mod64, writers,
}
use night_os.RingBuffer.Inv.{IsValid, held, held-lt-max, available-eq-held, tail-eq-index}
use night_os.RingBuffer.Contents.{tabulate, tabulate_snoc, get_elem?-tabulate, byte_at, contents}
use night_os.RingBuffer.Bytes.{contents_of_held_zero}
use night_os.RingBuffer.Wake.{length-contents}

-- the buffer less its newest byte
abbrev pub shortened : CircularBuffer → CircularBuffer
shortened cb = record cb { tail = if cb.tail == 0 then cb.max - 1 else cb.tail - 1 }

pub before_tail-shortened :
    {cb : CircularBuffer} → IsValid cb → before_tail cb ≡ ok (shortened cb).tail
unfolding before_tail mod64
before_tail-shortened {cb} v = ground (arith, mod_once (cb.tail + cb.max - 1) cb.max)

pub shortened-IsValid : {cb : CircularBuffer} → IsValid cb → IsValid (shortened cb)
shortened-IsValid v = ground arith

pub held-shortened :
    {cb : CircularBuffer} → IsValid cb → 0 < held cb → held cb ≡ suc (held (shortened cb))
held-shortened v h = ground arith

pub contents-shortened :
    {cb : CircularBuffer}
    → IsValid cb
    → 0 < held cb
    → contents cb ≡ contents (shortened cb) ++ get_or cb.buffer (shortened cb).tail 0 ∷ []
unfolding contents
contents-shortened {cb} v h =
    ap (λ n. tabulate n (byte_at cb)) (held-shortened v h)
    ∙ tabulate_snoc (held (shortened cb)) (byte_at cb)
    ∙ ap (λ i. tabulate (held (shortened cb)) (byte_at cb) ++ get_or cb.buffer i 0 ∷ [])
        (sym (tail-eq-index (shortened-IsValid v)))

-- what `ring_buffer_pop` does to a buffer that holds bytes
pub pop_some :
    (current : Pid) {cb : CircularBuffer}
    → IsValid cb
    → 0 < held cb
    → let (cb', woken) = notify writers current (shortened cb) in
      pop current cb ≡ ok (true, cb', woken)
unfolding pop
pop_some current v h = ground (arith, available-eq-held v, before_tail-shortened v)

pub pop_none :
    (current : Pid) {cb : CircularBuffer}
    → IsValid cb
    → held cb ≡ 0
    → pop current cb ≡ ok (false, cb, [])
unfolding pop
pop_none current v h = ground (arith, available-eq-held v)

load-get_or :
    (cb : CircularBuffer) (i : ℕ) → i < length cb.buffer → load cb i ≡ ok (get_or cb.buffer i 0)
unfolding load
load-get_or cb i h = ground (arith, get_elem?-eq-get_or cb.buffer i 0)

peek_in :
    {cb : CircularBuffer} (offset : ℕ)
    → IsValid cb
    → offset < held cb
    → peek offset cb ≡ ok (some (byte_at cb offset))
unfolding peek mod64
peek_in {cb} offset v h = ground (
  arith,
  available-eq-held v,
  held-lt-max v,
  mod_once (cb.head + offset) cb.max,
  load-get_or cb ((cb.head + offset) % cb.max),
)

peek_out :
    {cb : CircularBuffer} (offset : ℕ)
    → IsValid cb
    → held cb ≤ offset
    → offset < 2 ^ 31
    → peek offset cb ≡ ok none
unfolding peek
peek_out {cb} offset v h k = ground (arith, available-eq-held v)

-- `ring_buffer_peek` of a valid buffer reads the bytes held by their position, and none behind them.
pub peek-get_elem? :
    {cb : CircularBuffer} (offset : ℕ)
    → IsValid cb
    → offset < 2 ^ 31
    → peek offset cb ≡ ok (get_elem? (contents cb) offset)
unfolding contents
peek-get_elem? {cb} offset v h = elim (dec_lt offset (held cb)) [
  | yes p ↦ peek_in offset v p ∙ ap ok (sym (get_elem?-tabulate (held cb) (byte_at cb) offset p))
  | no p ↦
      peek_out offset v (omega arith) h
      ∙ ap ok (sym (get_elem?-ge (contents cb) offset (omega (arith, length-contents cb))))
]

read_last-some :
    {cb : CircularBuffer}
    → IsValid cb
    → 0 < held cb
    → read_last cb ≡ ok (some (get_or cb.buffer (shortened cb).tail 0))
unfolding read_last
read_last-some {cb} v h =
    ground (arith, available-eq-held v, before_tail-shortened v, load-get_or cb (shortened cb).tail)

read_last-none : {cb : CircularBuffer} → IsValid cb → held cb ≡ 0 → read_last cb ≡ ok none
unfolding read_last
read_last-none v h = ground (arith, available-eq-held v)

-- `ring_buffer_read_last` reads the newest byte.
pub read_last-last? : {cb : CircularBuffer} → IsValid cb → read_last cb ≡ ok (last? (contents cb))
read_last-last? {cb} v = elim (ℕ_discrete (held cb) 0) [
  | yes e ↦ read_last-none v e ∙ ap (λ l. ok (last? l)) (sym (contents_of_held_zero cb e))
  | no ne ↦
      read_last-some v (omega arith)
      ∙ ap ok (sym (last?-snoc (contents (shortened cb)) (get_or cb.buffer (shortened cb).tail 0)))
      ∙ ap (λ l. ok (last? l)) (sym (contents-shortened v (omega arith)))
]

pub contents-discard_readable : (cb : CircularBuffer) → contents (discard_readable cb) ≡ []
unfolding discard_readable
contents-discard_readable cb = contents_of_held_zero (discard_readable cb) (ground arith)

pub discard_readable-IsValid : {cb : CircularBuffer} → IsValid cb → IsValid (discard_readable cb)
unfolding discard_readable
discard_readable-IsValid v = ground arith

pub discard_readable_same :
    (cb : CircularBuffer)
    → ((discard_readable cb).max ≡ cb.max)
      × ((discard_readable cb).blocking_write ≡ cb.blocking_write)
unfolding discard_readable
discard_readable_same cb = (refl, refl)
