-- ===== src/RingBuffer/Bytes.antt =====
-- One byte in and one byte out, and the two copying loops.
use night_os.Base.{
  ℕ, zero, suc, ◌+◌, ◌%◌, ◌<◌, ◌≡◌, ◌≢◌, refl, ap, ap₂, sym, ◌∙◌, List, [], ◌∷◌, ◌++◌, arith,
  length, get_or, set, take, drop, if◌then◌else◌, leb, ok, ◌>>=◌, Returns, ◌⊎◌, add64, mod_once,
  length-set, get_or-set_ne, get_or-set_self, get_elem?-eq-get_or, append-nil, append_assoc, inl,
  inr,
}
use native.Mathlib.Decide.{ℕ_discrete}
use night_os.RingBuffer.{CircularBuffer, put_byte, put_bytes, get_bytes, load, store, mod64}
use night_os.RingBuffer.Inv.{IsValid, held, available-eq-held, tail-eq-index}
use night_os.RingBuffer.Contents.{tabulate, tabulate_congr, tabulate_snoc, byte_at, contents}

-- the index behind `i`
abbrev pub next_index : ℕ → ℕ → ℕ
next_index i max = if leb max (i + 1) then 0 else i + 1

-- the buffer after a byte went in
abbrev pub pushed : ℕ → CircularBuffer → CircularBuffer
pushed b cb = record cb { buffer = set cb.buffer cb.tail b; tail = next_index cb.tail cb.max }

-- the buffer after a byte came out
abbrev pub popped : CircularBuffer → CircularBuffer
popped cb = record cb { head = next_index cb.head cb.max }

pub put_byte-pushed : {cb : CircularBuffer} (b : ℕ) → IsValid cb → put_byte b cb ≡ ok (pushed b cb)
unfolding put_byte store
put_byte-pushed b v = ground arith

pub pushed-IsValid : {cb : CircularBuffer} (b : ℕ) → IsValid cb → IsValid (pushed b cb)
pushed-IsValid {cb} b v = ground (arith, length-set cb.buffer cb.tail b)

pub held-pushed :
    {cb : CircularBuffer} (b : ℕ)
    → IsValid cb
    → held cb + 1 < cb.max
    → held (pushed b cb) ≡ held cb + 1
held-pushed b v h = ground arith

index_ne_tail :
    {cb : CircularBuffer} (k : ℕ) → IsValid cb → k < held cb → cb.tail ≢ (cb.head + k) % cb.max
index_ne_tail {cb} k v h = ground (arith, mod_once (cb.head + k) cb.max)

pub contents-pushed :
    {cb : CircularBuffer} (b : ℕ)
    → IsValid cb
    → held cb + 1 < cb.max
    → contents (pushed b cb) ≡ contents cb ++ b ∷ []
unfolding contents
contents-pushed {cb} b v h =
    let e : held (pushed b cb) ≡ suc (held cb) = omega (arith, held-pushed b v h) in
    ap (λ n. tabulate n (byte_at (pushed b cb))) e
    ∙ tabulate_snoc (held cb) (byte_at (pushed b cb))
    ∙ ap₂ (λ l x. l ++ x ∷ [])
        (tabulate_congr (held cb) (byte_at (pushed b cb)) (byte_at cb)
          λ k p. get_or-set_ne cb.buffer cb.tail ((cb.head + k) % cb.max) b 0 (index_ne_tail k v p))
        (ap (λ i. get_or (set cb.buffer cb.tail b) i 0) (sym (tail-eq-index v))
          ∙ get_or-set_self cb.buffer cb.tail b 0 (omega arith))

pub popped-IsValid : {cb : CircularBuffer} → IsValid cb → IsValid (popped cb)
popped-IsValid v = ground arith

pub held-popped : {cb : CircularBuffer} → IsValid cb → 0 < held cb → held (popped cb) + 1 ≡ held cb
held-popped v h = ground arith

index-popped :
    {cb : CircularBuffer} (k : ℕ)
    → IsValid cb
    → suc k < cb.max
    → (cb.head + suc k) % cb.max ≡ (next_index cb.head cb.max + k) % cb.max
index-popped {cb} k v h =
    ground
      (arith, mod_once (cb.head + suc k) cb.max, mod_once (next_index cb.head cb.max + k) cb.max)

held_small :
    {cb : CircularBuffer} (k : ℕ) → IsValid cb → 0 < held cb → k < held (popped cb) → suc k < cb.max
held_small k v h p = ground (arith, held-popped v h)

pub contents-popped :
    {cb : CircularBuffer}
    → IsValid cb
    → 0 < held cb
    → contents cb ≡ get_or cb.buffer cb.head 0 ∷ contents (popped cb)
unfolding contents
contents-popped {cb} v h =
    let e : held cb ≡ suc (held (popped cb)) = omega (arith, held-popped v h) in
    ap (λ n. tabulate n (byte_at cb)) e
    ∙ ap₂ ◌∷◌ (ap (λ i. get_or cb.buffer i 0) (ground (arith, mod_once (cb.head + 0) cb.max))) (
        tabulate_congr (held (popped cb)) (λ k. byte_at cb (suc k)) (byte_at (popped cb))
          λ k p. ap (λ i. get_or cb.buffer i 0) (index-popped k v (held_small k v h p)))

pub load-head :
    {cb : CircularBuffer} → IsValid cb → load cb cb.head ≡ ok (get_or cb.buffer cb.head 0)
unfolding load
load-head {cb} v = ground (arith, get_elem?-eq-get_or cb.buffer cb.head 0)

-- the buffer after several bytes went in
unfoldable pub push_all : List ℕ → CircularBuffer → CircularBuffer
push_all [] cb = cb
push_all (b ∷ bytes) cb = push_all bytes (pushed b cb)

-- what a copy into `cb` leaves alone
pub record SameWriter (cb cb' : CircularBuffer) : Type 0 where
  pub head : cb'.head ≡ cb.head
  pub max : cb'.max ≡ cb.max
  pub writers : cb'.wait_queue_write ≡ cb.wait_queue_write
  pub readers : cb'.wait_queue_read ≡ cb.wait_queue_read
  pub blocking : cb'.blocking_write ≡ cb.blocking_write

-- what a copy out of `cb` leaves alone
pub record SameReader (cb cb' : CircularBuffer) : Type 0 where
  pub buffer : cb'.buffer ≡ cb.buffer
  pub tail : cb'.tail ≡ cb.tail
  pub max : cb'.max ≡ cb.max
  pub writers : cb'.wait_queue_write ≡ cb.wait_queue_write
  pub readers : cb'.wait_queue_read ≡ cb.wait_queue_read
  pub blocking : cb'.blocking_write ≡ cb.blocking_write

pub record Wrote (bytes : List ℕ) (cb cb' : CircularBuffer) : Type 0 where
  pub valid : IsValid cb'
  pub contents : contents cb' ≡ contents cb ++ bytes
  pub same : SameWriter cb cb'

pub push_all-Wrote :
    (bytes : List ℕ) (cb : CircularBuffer)
    → IsValid cb
    → held cb + length bytes < cb.max
    → Wrote bytes cb (push_all bytes cb)
unfolding push_all
push_all-Wrote [] cb v h = record {
  valid = v;
  contents = sym (append-nil (contents cb));
  same = ground arith;
}
push_all-Wrote (b ∷ bytes) cb v h =
    let rest =
      push_all-Wrote bytes (pushed b cb) (pushed-IsValid b v) (omega (arith, held-pushed b v)) in
    record {
      valid = rest.valid;
      contents =
          rest.contents
          ∙ ap (λ l. l ++ bytes) (contents-pushed b v (omega arith))
          ∙ append_assoc (contents cb) (b ∷ []) bytes;
      same = ground (arith, rest.same);
    }

pub put_bytes-push_all :
    (bytes : List ℕ) (cb : CircularBuffer)
    → IsValid cb
    → put_bytes (length bytes) bytes cb ≡ ok (push_all bytes cb)
unfolding put_bytes push_all
put_bytes-push_all [] cb v = refl
put_bytes-push_all (b ∷ bytes) cb v =
    rw (put_byte-pushed b v, ◌>>=◌) (put_bytes-push_all bytes (pushed b cb) (pushed-IsValid b v))

pub record Took (room : ℕ) (cb : CircularBuffer) (r : List ℕ × CircularBuffer) : Type 0 where
  pub bytes : r.0 ≡ take room (contents cb)
  pub valid : IsValid r.1
  pub contents : contents r.1 ≡ drop room (contents cb)
  pub same : SameReader cb r.1

pub contents_of_held_zero : (cb : CircularBuffer) → held cb ≡ 0 → contents cb ≡ []
unfolding contents
contents_of_held_zero cb e = ap (λ n. tabulate n (byte_at cb)) e

Took-none :
    (room : ℕ) (cb : CircularBuffer)
    → IsValid cb
    → (room ≡ 0) ⊎ (held cb ≡ 0)
    → Took room cb ([], cb)
Took-none zero cb v h = record { bytes = refl; valid = v; contents = refl; same = ground arith }
Took-none (suc room) cb v (inl e) = absurd (omega arith)
Took-none (suc room) cb v (inr e) =
    let empty = contents_of_held_zero cb e in
    record { bytes = rw empty; valid = v; contents = rw empty; same = ground arith }

Took-more :
    (room : ℕ) (cb : CircularBuffer) (bytes : List ℕ) (cb' : CircularBuffer)
    → IsValid cb
    → 0 < held cb
    → Took room (popped cb) (bytes, cb')
    → Took (suc room) cb (get_or cb.buffer cb.head 0 ∷ bytes, cb')
Took-more room cb bytes cb' v h t =
    let front = contents-popped v h in
    record {
      bytes = ap (λ l. get_or cb.buffer cb.head 0 ∷ l) t.bytes ∙ sym (ap (take (suc room)) front);
      valid = t.valid;
      contents = t.contents ∙ sym (ap (drop (suc room)) front);
      same = ground (arith, t.same);
    }

next_index-mod :
    {cb : CircularBuffer}
    → IsValid cb
    → mod64 (add64 cb.head 1) cb.max ≡ ok (next_index cb.head cb.max)
unfolding mod64
next_index-mod {cb} v = ground (arith, mod_once (cb.head + 1) cb.max)

pub get_bytes-Took :
    (fuel room : ℕ) (cb : CircularBuffer)
    → IsValid cb
    → held cb < fuel
    → Returns (get_bytes fuel room cb) (Took room cb)
unfolding get_bytes
get_bytes-Took zero room cb v h = absurd (omega arith)
get_bytes-Took (suc fuel) zero cb v h = (([], cb), ground arith, Took-none 0 cb v (inl refl))
get_bytes-Took (suc fuel) (suc room) cb v h = elim (ℕ_discrete (held cb) 0) [
  | yes e ↦ (([], cb), ground (arith, available-eq-held v), Took-none (suc room) cb v (inr e))
  | no ne ↦
      let (r, run, t) =
        get_bytes-Took fuel room (popped cb) (popped-IsValid v) (omega (arith, held-popped v)) in
      (
        (get_or cb.buffer cb.head 0 ∷ r.0, r.1),
        ground (arith, available-eq-held v, load-head v, next_index-mod v, run),
        Took-more room cb r.0 r.1 v (omega arith) t,
      )
]
