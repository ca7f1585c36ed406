-- ===== src/RingBuffer/Tests.antt =====
-- The theorems about the ring buffer at concrete buffers, and small runs.
use night_os.Base.{◌≡◌, refl, true, false, some, List, [], ◌∷◌, arith}
use night_os.Fifo
use night_os.Fifo.{Op, Reply, put, get, drop_last, look, look_last, count, bytes, flag, byte}
use night_os.Mutex
use night_os.RingBuffer.{CircularBuffer}
use night_os.RingBuffer.Inv.{IsValid}
use night_os.RingBuffer.Contents.{contents}
use night_os.RingBuffer.Refine.{Ready, run, run_refines_fifo}

-- two bytes, 8 and 9, the second one round the end
abbrev wrapped : CircularBuffer
wrapped = record {
  buffer = 9 ∷ 0 ∷ 0 ∷ 8 ∷ [];
  head = 3;
  tail = 1;
  max = 4;
  wait_queue_write = Mutex.init;
  wait_queue_read = Mutex.init;
  blocking_write = false;
}

abbrev empty : CircularBuffer
empty = record wrapped { head = 1 }

wrapped-IsValid : IsValid wrapped
wrapped-IsValid = omega arith

wrapped-Ready : Ready wrapped
wrapped-Ready = record { valid = wrapped-IsValid; nonblocking = refl }

abbrev script : List Op
script = look 1 ∷ put (1 ∷ 2 ∷ []) ∷ put (7 ∷ []) ∷ look_last ∷ drop_last ∷ get 5 ∷ get 1 ∷ []

run-script :
    Fifo.run 3 script (8 ∷ 9 ∷ [])
    ≡ byte (some 9) ∷ count 0 ∷ count 1 ∷ byte (some 7) ∷ flag true ∷ bytes (8 ∷ 9 ∷ []) ∷ []
unfolding Fifo.run Fifo.step
run-script = refl

run_refines_fifo_example : run 1 script wrapped ≡ Fifo.run 3 script (contents wrapped)
run_refines_fifo_example = run_refines_fifo 1 script wrapped-Ready (omega arith)

-- what a writer leaves: two bytes, and the readers' queue free
abbrev fill : CircularBuffer → CircularBuffer
fill cb = wrapped
