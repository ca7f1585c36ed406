-- ===== src/Pty/Echo.antt =====
-- One byte given to a buffer that does not wait, and what echoing leaves as it is.
use night_os.Base.{
  ℕ, ◌+◌, ◌<◌, ◌≤◌, ◌≡◌, refl, ap, ◌∙◌, Bool, true, false, [], ◌∷◌, ◌++◌, arith, ok, Bool-cases,
  inl, inr, Returns,
}
use native.Mathlib.Decide.{dec_lt}
use night_os.Mutex.{Pid}
use night_os.RingBuffer
use night_os.RingBuffer.{CircularBuffer, notify, writers}
use night_os.RingBuffer.Inv.{held}
use night_os.RingBuffer.Contents.{contents}
use night_os.RingBuffer.Write.{write-Written, write_refused}
use night_os.RingBuffer.Refine.{Ready}
use night_os.Pty.{Pty, get_slave, write_byte, echo_char, when_echo}

-- what became of one byte given to a buffer that does not wait
pub data Stored (c : ℕ) (cb : CircularBuffer) : ℕ → CircularBuffer → Type 0 where
  stored :
      {cb' : CircularBuffer}
      → held cb + 1 < cb.max
      → contents cb' ≡ contents cb ++ c ∷ []
      → Stored c cb 1 cb'
  refused : cb.max ≤ held cb + 1 → Stored c cb 0 cb

pub write_one :
    (current : Pid) (c : ℕ) {cb : CircularBuffer}
    → Ready cb
    → Returns
        (RingBuffer.write current [] 1 (c ∷ []) cb)
        λ r. Ready r.1 × (r.1.max ≡ cb.max) × Stored c cb r.0 r.1
write_one current c {cb} v = elim (dec_lt (held cb + 1) cb.max) [
  | yes p ↦
      let (r, run, (n, bytes, valid, max, mode)) =
        write-Written current [] (c ∷ []) v.valid (omega arith) in
      (
        (1, r.1, r.2),
        run ∙ ap (λ k. ok (k, r.1, r.2)) n,
        (record { valid = valid; nonblocking = mode ∙ v.nonblocking }, max, stored p bytes),
      )
  | no p ↦ (
    (0, cb, []),
    write_refused current [] (c ∷ []) v.valid v.nonblocking (omega arith) (omega arith),
    (v, refl, refused (omega arith)),
  )
]

-- canonical mode over two buffers that do not wait
pub record Canonical (t : Pty) : Type 0 where
  pub input : Ready t.input_buffer
  pub output : Ready t.output_buffer
  pub icanon : t.icanon ≡ true
  pub raw : t.raw ≡ false

-- Echoing leaves the input.
pub record Echoed (t t' : Pty) : Type 0 where
  pub canonical : Canonical t'
  pub input : t'.input_buffer ≡ t.input_buffer
  pub echo : t'.echo ≡ t.echo

get_slave-Echoed : (current : Pid) (t : Pty) → Canonical t → Echoed t (get_slave current t)
unfolding get_slave
get_slave-Echoed current t v = ground arith

pub when_echo-Echoed :
    (on : Bool) (current : Pid) (c : ℕ) (t : Pty)
    → Canonical t
    → Returns (when_echo on current c t) (Echoed t)
unfolding when_echo echo_char write_byte
when_echo-Echoed false current c t v =
    (t, refl, record { canonical = v; input = refl; echo = refl })
when_echo-Echoed true current c t v = elim (Bool-cases t.console) [
  | inl shown ↦ (record t { shown = t.shown ++ c ∷ [] }, ground (arith, shown), ground arith)
  | inr hidden ↦
      let u = get_slave current t in
      let s = get_slave-Echoed current t v in
      let (r, run, (ready, max, what)) = write_one current c s.canonical.output in
      (
        record u { output_buffer = r.1; thread_queue = u.thread_queue ++ r.2 },
        ground (arith, hidden, run),
        record {
          canonical = record {
            input = s.canonical.input;
            output = ready;
            icanon = s.canonical.icanon;
            raw = s.canonical.raw;
          };
          input = s.input;
          echo = s.echo;
        },
      )
]
