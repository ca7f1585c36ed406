-- ===== src/RingBuffer/Refine.antt =====
-- A ring buffer that does not wait for room behaves as the bounded queue of the bytes it holds.
use night_os.Base.{
  ℕ, ◌+◌, ◌-◌, ◌^◌, ◌<◌, ◌≡◌, refl, ap, sym, ◌∙◌, List, [], ◌∷◌, ◌++◌, arith, length, get_elem?,
  get_or, drop, ◌⊎◌, inl, inr, Run, ok, blocked, ◌>>=◌, true, false,
}
use mathlib.Core.Path.{subst}
use native.Mathlib.Decide.{ℕ_discrete, dec_lt}
use night_os.Fifo
use night_os.Fifo.{
  Op, put, get, drop_last, look, look_last, clear, Reply, count, bytes, flag, byte, done, Fits,
}
use night_os.Mutex.{Pid}
use night_os.RingBuffer.{
  CircularBuffer, write, read, pop, peek, read_last, discard_readable, notify, writers,
}
use night_os.RingBuffer.Inv.{IsValid, held}
use night_os.RingBuffer.Contents.{contents}
use night_os.RingBuffer.Bytes.{contents_of_held_zero}
use night_os.RingBuffer.Wake.{
  SameBytes-IsValid, contents-SameBytes, notify-SameBytes, length-contents,
}
use night_os.RingBuffer.Write.{write-Written, write_refused}
use night_os.RingBuffer.Read.{read-ReadFrom, read_blocked}
use night_os.RingBuffer.Ends.{
  pop_some, pop_none, shortened, contents-shortened, shortened-IsValid, peek-get_elem?,
  read_last-last?, contents-discard_readable, discard_readable-IsValid, discard_readable_same,
}

-- one call by `current`, with nobody there to wake it
unfoldable pub step : Pid → Op → CircularBuffer → Run (Reply × CircularBuffer)
step current (put bs) cb = do (n, cb, woken) ← write current [] (length bs) bs cb; ok (count n, cb)
step current (get n) cb = do (bs, cb, woken) ← read current [] n cb; ok (bytes bs, cb)
step current drop_last cb = do (b, cb, woken) ← pop current cb; ok (flag b, cb)
step current (look i) cb = do b ← peek i cb; ok (byte b, cb)
step current look_last cb = do b ← read_last cb; ok (byte b, cb)
step current clear cb = ok (done, discard_readable cb)

unfoldable pub run : Pid → List Op → CircularBuffer → List Reply
run current [] cb = []
run current (op ∷ ops) cb = elim (step current op cb) [ ok r ↦ r.0 ∷ run current ops r.1 | _ ↦ [] ]

pub record Ready (cb : CircularBuffer) : Type 0 where
  pub valid : IsValid cb
  pub nonblocking : cb.blocking_write ≡ false

-- The two outcomes agree, and the buffer is left ready for the next call.
pub data Agrees (max : ℕ) : Run (Reply × CircularBuffer) → Run (Reply × List ℕ) → Type 0 where
  both :
      {r : Reply} {cb : CircularBuffer} {q : List ℕ}
      → Ready cb
      → cb.max ≡ max
      → contents cb ≡ q
      → Agrees max (ok (r, cb)) (ok (r, q))
  sleeps : Agrees max blocked blocked

contents_cases :
    {cb : CircularBuffer}
    → IsValid cb
    → ((held cb ≡ 0) × (contents cb ≡ []))
      ⊎ ((0 < held cb) × ((x : ℕ) × (q : List ℕ) × (contents cb ≡ x ∷ q)))
contents_cases {cb} v = elim (ℕ_discrete (held cb) 0) [
  | yes e ↦ inl (e, contents_of_held_zero cb e)
  | no ne ↦ inr (omega arith, split (contents cb) (omega (arith, length-contents cb)))
]
  where
    split : (l : List ℕ) → 0 < length l → (x : ℕ) × (q : List ℕ) × (l ≡ x ∷ q)
    split [] h = absurd (omega arith)
    split (x ∷ q) h = (x, q, refl)

both_of :
    {max : ℕ} {a : Run (Reply × CircularBuffer)} {b : Run (Reply × List ℕ)} (r : Reply)
    (cb : CircularBuffer) (q : List ℕ)
    → a ≡ ok (r, cb)
    → b ≡ ok (r, q)
    → Ready cb
    → cb.max ≡ max
    → contents cb ≡ q
    → Agrees max a b
both_of r cb q e f v m c = rw (e, f) (both v m c)

module _ (current : Pid) (cb : CircularBuffer) (v : Ready cb) where
  put_Agrees :
      (bs : List ℕ)
      → length bs < 2 ^ 31
      → Agrees cb.max (step current (put bs) cb) (Fifo.step (cb.max - 1) (put bs) (contents cb))
  unfolding step Fifo.step
  put_Agrees bs small = elim (dec_lt (length bs + held cb) cb.max) [
    | yes p ↦
        let (r, run, (n, c, valid, max, mode)) = write-Written current [] bs v.valid p in
        both_of (count (length bs)) r.1 (contents cb ++ bs) (ground (arith, run, n))
          (ground (arith, length-contents cb)) (ground (arith, valid, mode)) max c
    | no p ↦
        both_of (count 0) cb (contents cb)
          (ground (arith, write_refused current [] bs v.valid v.nonblocking small))
          (ground (arith, length-contents cb)) v refl refl
  ]

  get_Agrees :
      (n : ℕ)
      → 0 < n
      → n < 2 ^ 31
      → Agrees cb.max (step current (get n) cb) (Fifo.step (cb.max - 1) (get n) (contents cb))
  unfolding step Fifo.step
  get_Agrees n positive small = elim (contents_cases v.valid) [
    | inl (e, c) ↦ rw (c, read_blocked current n v.valid e) sleeps
    | inr (h, (x, q, c)) ↦
        let (r, run, (out, rest, valid, max, mode)) =
          read-ReadFrom current [] n v.valid h positive small in
        both_of (bytes r.0) r.1 (drop n (x ∷ q)) (ground (arith, run)) (ground (arith, out, c))
          (ground (arith, valid, mode)) max (ground (arith, rest, c))
  ]

  drop_last_Agrees :
      Agrees cb.max (step current drop_last cb) (Fifo.step (cb.max - 1) drop_last (contents cb))
  unfolding step Fifo.step
  drop_last_Agrees = elim (contents_cases v.valid) [
    | inl (e, c) ↦
        both_of (flag false) cb [] (ground (arith, pop_none current v.valid e)) (ground (arith, c))
          v refl c
    | inr (h, (x, q, c)) ↦
        let s = notify-SameBytes writers current (shortened cb) in
        both_of (flag true) (notify writers current (shortened cb)).0 (Fifo.init (x ∷ q))
          (ground (arith, pop_some current v.valid h)) (rw c)
          (ground (arith, SameBytes-IsValid s (shortened-IsValid v.valid), s.blocking)) s.max
          (contents-SameBytes s
            ∙ sym
                (Fifo.init-snoc (contents (shortened cb)) (get_or cb.buffer (shortened cb).tail 0))
            ∙ ap Fifo.init (sym (contents-shortened v.valid h) ∙ c))
  ]

-- Each call does to the buffer, and answers, what the queue of capacity `max - 1` does and answers.
pub step-Agrees :
    (current : Pid) (op : Op) (cb : CircularBuffer)
    → Ready cb
    → Fits op
    → Agrees cb.max (step current op cb) (Fifo.step (cb.max - 1) op (contents cb))
step-Agrees current (put bs) cb v fits = put_Agrees current cb v bs fits
step-Agrees current (get n) cb v fits = get_Agrees current cb v n fits.0 fits.1
step-Agrees current drop_last cb v fits = drop_last_Agrees current cb v
step-Agrees current (look i) cb v fits =
    unfold step Fifo.step in
    both_of (byte (get_elem? (contents cb) i)) cb (contents cb)
      (ground (arith, peek-get_elem? {cb = cb} i v.valid fits)) refl v refl refl
step-Agrees current look_last cb v fits =
    unfold step Fifo.step in
    both_of (byte (Fifo.last? (contents cb))) cb (contents cb)
      (ground (arith, read_last-last? v.valid)) refl v refl refl
step-Agrees current clear cb v fits =
    unfold step Fifo.step in
    both_of done (discard_readable cb) [] refl refl
      (record {
        valid = discard_readable-IsValid v.valid;
        nonblocking = (discard_readable_same cb).1 ∙ v.nonblocking;
      })
      (discard_readable_same cb).0 (contents-discard_readable cb)

abbrev pub AllFit : List Op → Type 0
AllFit [] = Unit {0}
AllFit (op ∷ ops) = Fits op × AllFit ops

run_from :
    (current : Pid) (max : ℕ) (ops : List Op) {a : Run (Reply × CircularBuffer)}
    {b : Run (Reply × List ℕ)}
    → Agrees max a b
    → ((cb : CircularBuffer)
        → Ready cb
        → cb.max ≡ max
        → run current ops cb ≡ Fifo.run (max - 1) ops (contents cb))
    → (elim a as (λ _. List Reply) [ ok r ↦ r.0 ∷ run current ops r.1 | _ ↦ [] ])
      ≡ (elim b as (λ _. List Reply) [ ok r ↦ r.0 ∷ Fifo.run (max - 1) ops r.1 | _ ↦ [] ])
run_from current max ops (both {r} {cb} v m c) ih =
    ap (λ l. r ∷ l) (ih cb v m ∙ ap (Fifo.run (max - 1) ops) c)
run_from current max ops sleeps ih = refl

run_at :
    (current : Pid) (max : ℕ) (ops : List Op) (cb : CircularBuffer)
    → Ready cb
    → AllFit ops
    → cb.max ≡ max
    → run current ops cb ≡ Fifo.run (max - 1) ops (contents cb)
unfolding run Fifo.run
run_at current max [] cb v fits m = refl
run_at current max (op ∷ ops) cb v fits m =
    run_from current max ops
      (subst (λ k. Agrees k (step current op cb) (Fifo.step (k - 1) op (contents cb))) m
        (step-Agrees current op cb v fits.0))
      λ cb' v' m'. run_at current max ops cb' v' fits.1 m'

-- Any sequence of calls on a buffer that does not wait for room returns what the bounded queue of
-- its contents returns, call by call, up to a read that sleeps.
pub run_refines_fifo :
    (current : Pid) (ops : List Op) {cb : CircularBuffer}
    → Ready cb
    → AllFit ops
    → run current ops cb ≡ Fifo.run (cb.max - 1) ops (contents cb)
run_refines_fifo current ops {cb} v fits = run_at current cb.max ops cb v fits refl
