-- ===== src/RingBuffer/Write.antt =====
-- `ring_buffer_write`.
use night_os.Base.{
  ℕ, ◌+◌, ◌^◌, ◌≤◌, ◌<◌, ◌≡◌, refl, ◌∙◌, List, [], ◌++◌, arith, length, ok, Returns, false,
}
use night_os.Mutex.{Pid}
use night_os.RingBuffer.{CircularBuffer, Sleeps, write, notify, wait_for_room, readers}
use night_os.RingBuffer.Inv.{IsValid, held, writeable-eq-held}
use night_os.RingBuffer.Contents.{contents}
use night_os.RingBuffer.Bytes.{push_all, push_all-Wrote, put_bytes-push_all}
use night_os.RingBuffer.Wake.{SameBytes-IsValid, contents-SameBytes, notify-SameBytes}

abbrev pub Written : List ℕ → CircularBuffer → ℕ × CircularBuffer × List Pid → Type 0
Written bytes cb (n, cb', woken) =
    (n ≡ length bytes)
    × (contents cb' ≡ contents cb ++ bytes)
    × IsValid cb'
    × (cb'.max ≡ cb.max)
    × (cb'.blocking_write ≡ cb.blocking_write)

-- A write to a valid buffer that has room for it is carried out whole, and returns its length.
pub write-Written :
    (current : Pid) (sleeps : Sleeps) (bytes : List ℕ) {cb : CircularBuffer}
    → IsValid cb
    → length bytes + held cb < cb.max
    → Returns (write current sleeps (length bytes) bytes cb) (Written bytes cb)
unfolding write wait_for_room
write-Written current sleeps bytes {cb} v h =
    let w = push_all-Wrote bytes cb v (omega arith) in
    let cb' = push_all bytes cb in
    let s = notify-SameBytes readers current cb' in
    (
      (length bytes, (notify readers current cb').0, (notify readers current cb').1),
      ground (arith, writeable-eq-held v, put_bytes-push_all bytes cb v),
      (
        refl,
        contents-SameBytes s ∙ w.contents,
        SameBytes-IsValid s w.valid,
        s.max ∙ w.same.max,
        s.blocking ∙ w.same.blocking,
      ),
    )

-- A write for which a valid buffer has no room changes nothing and returns 0, unless it is to wait.
pub write_refused :
    (current : Pid) (sleeps : Sleeps) (bytes : List ℕ) {cb : CircularBuffer}
    → IsValid cb
    → cb.blocking_write ≡ false
    → length bytes < 2 ^ 31
    → cb.max ≤ length bytes + held cb
    → write current sleeps (length bytes) bytes cb ≡ ok (0, cb, [])
unfolding write wait_for_room
write_refused current sleeps bytes {cb} v nonblocking small h = ground (arith, writeable-eq-held v)
