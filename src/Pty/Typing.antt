-- ===== src/Pty/Typing.antt =====
-- What one byte of `pty_write_to_input` makes of the input in canonical mode.
use night_os.Base.{
  ℕ, ◌+◌, ◌-◌, ◌<◌, ◌≡◌, refl, ap, ◌∙◌, sym, Bool, true, false, ◌||◌, List, [], ◌∷◌, ◌++◌, length,
  get_or, leb, ◌==◌, arith, if◌then◌else◌, ok, Bool-cases, inl, inr, Returns,
}
use native.Mathlib.Decide.{ℕ_discrete}
use night_os.Fifo
use night_os.Mutex.{Pid}
use night_os.RingBuffer
use night_os.RingBuffer.{CircularBuffer, notify, writers}
use night_os.RingBuffer.Inv.{held, available-eq-held}
use night_os.RingBuffer.Contents.{contents}
use night_os.RingBuffer.Bytes.{contents_of_held_zero}
use night_os.RingBuffer.Wake.{
  length-contents, notify-SameBytes, contents-SameBytes, SameBytes-IsValid,
}
use night_os.RingBuffer.Ends.{pop_some, shortened, contents-shortened, shortened-IsValid}
use night_os.RingBuffer.Refine.{Ready}
use night_os.Pty.{Pty, Next, more, complete, put_input, store_char, erase_char, type_char}
use night_os.Pty.Echo.{Stored, stored, refused, write_one, Canonical, when_echo-Echoed}

-- The line editor: a backspace takes the last byte back, a newline or carriage return ends the call,
-- and so does a byte for which there is no room. The count says whether the byte was taken.
unfoldable pub line_step : ℕ → ℕ → List ℕ → Bool × Next × List ℕ
line_step capacity c line =
    if c == 8
    then (true, more, Fifo.init line)
    else if leb (length line + 1) capacity
    then (true, if c == b'\n' || c == b'\r' then complete else more, line ++ c ∷ [])
    else (false, complete, line)

-- `type_char` did what the line editor does.
abbrev pub Edits : Pty → Bool × Next × List ℕ → Bool × Next × Pty → Type 0
Edits t (counted, next, line) (counted', next', t') =
    (counted' ≡ counted)
    × (next' ≡ next)
    × (contents t'.input_buffer ≡ line)
    × Canonical t'
    × (t'.input_buffer.max ≡ t.input_buffer.max)

store_char-Edits :
    (current : Pid) (c : ℕ) (echo : Bool) (end : Next) (t : Pty)
    → Canonical t
    → Returns (store_char current c echo end complete t) (
        Edits t (
          if leb (length (contents t.input_buffer) + 1) (t.input_buffer.max - 1)
          then (true, end, contents t.input_buffer ++ c ∷ [])
          else (false, complete, contents t.input_buffer)))
unfolding store_char put_input
store_char-Edits current c echo end t v =
    let (r, run, (ready, max, what)) = write_one current c v.input in
    go r.0 r.1 r.2 run ready max what
  where
    u : CircularBuffer → List Pid → Pty
    u cb woken = record t { input_buffer = cb; thread_queue = t.thread_queue ++ woken }

    canonical : (cb : CircularBuffer) (woken : List Pid) → Ready cb → Canonical (u cb woken)
    canonical cb woken ready = record {
      input = ready;
      output = v.output;
      icanon = v.icanon;
      raw = v.raw;
    }

    go :
        (n : ℕ) (cb : CircularBuffer) (woken : List Pid)
        → RingBuffer.write current [] 1 (c ∷ []) t.input_buffer ≡ ok (n, cb, woken)
        → Ready cb
        → cb.max ≡ t.input_buffer.max
        → Stored c t.input_buffer n cb
        → Returns (store_char current c echo end complete t) (
            Edits t (
              if leb (length (contents t.input_buffer) + 1) (t.input_buffer.max - 1)
              then (true, end, contents t.input_buffer ++ c ∷ [])
              else (false, complete, contents t.input_buffer)))
    go n cb woken run ready max (stored room bytes) =
        let (t', e, w) = when_echo-Echoed echo current c (u cb woken) (canonical cb woken ready) in
        let fits : leb (length (contents t.input_buffer) + 1) (t.input_buffer.max - 1) ≡ true =
          ground (arith, length-contents t.input_buffer) in
        (
          (true, end, t'),
          ground (arith, run, e),
          rw fits (
            refl,
            refl,
            ap contents w.input ∙ bytes,
            w.canonical,
            ap (λ (b : CircularBuffer). b.max) w.input ∙ max,
          ),
        )
    go n cb woken run ready max (refused full) =
        let fits : leb (length (contents t.input_buffer) + 1) (t.input_buffer.max - 1) ≡ false =
          ground (arith, length-contents t.input_buffer, v.input.valid) in
        (
          (false, complete, u cb woken),
          ground (arith, run),
          rw fits (refl, refl, refl, canonical cb woken ready, refl),
        )

-- `erase_char` in its two cases
erase_nothing :
    (current : Pid) (t : Pty)
    → Canonical t
    → held t.input_buffer ≡ 0
    → erase_char current t ≡ ok (true, more, t)
unfolding erase_char
erase_nothing current t v e = ground (arith, available-eq-held v.input.valid)

erase_char-Edits :
    (current : Pid) (t : Pty)
    → Canonical t
    → Returns (erase_char current t) (Edits t (true, more, Fifo.init (contents t.input_buffer)))
unfolding erase_char
erase_char-Edits current t v = elim (ℕ_discrete (held t.input_buffer) 0) [
  | yes e ↦
      let none_held = contents_of_held_zero t.input_buffer e in
      (
        (true, more, t),
        erase_nothing current t v e,
        (refl, refl, none_held ∙ sym (ap Fifo.init none_held), v, refl),
      )
  | no ne ↦
      let cb = t.input_buffer in
      let some_held : 0 < held cb = omega arith in
      let popped = (notify writers current (shortened cb)).0 in
      let woken = (notify writers current (shortened cb)).1 in
      let same = notify-SameBytes writers current (shortened cb) in
      let u = record t { input_buffer = popped; thread_queue = t.thread_queue ++ woken } in
      let bytes : contents popped ≡ Fifo.init (contents cb) =
        contents-SameBytes same
        ∙ sym (Fifo.init-snoc (contents (shortened cb)) (get_or cb.buffer (shortened cb).tail 0))
        ∙ ap Fifo.init (sym (contents-shortened v.input.valid some_held)) in
      let v₀ : Canonical u = record {
        input = record {
          valid = SameBytes-IsValid same (shortened-IsValid v.input.valid);
          nonblocking = same.blocking ∙ v.input.nonblocking;
        };
        output = v.output;
        icanon = v.icanon;
        raw = v.raw;
      } in
      let (t₁, e₁, w₁) = when_echo-Echoed t.echo current 8 u v₀ in
      let (t₂, e₂, w₂) = when_echo-Echoed t.echo current b' ' t₁ w₁.canonical in
      let (t₃, e₃, w₃) = when_echo-Echoed t.echo current 8 t₂ w₂.canonical in
      let input = w₃.input ∙ w₂.input ∙ w₁.input in
      (
        (true, more, t₃),
        ground (
          arith,
          available-eq-held v.input.valid,
          pop_some current v.input.valid some_held,
          e₁,
          e₂,
          e₃,
        ),
        (
          refl,
          refl,
          ap contents input ∙ bytes,
          w₃.canonical,
          ap (λ (b : CircularBuffer). b.max) input ∙ same.max,
        ),
      )
]

pub type_char-Edits :
    (current : Pid) (c : ℕ) (t : Pty)
    → Canonical t
    → Returns
        (type_char current c t)
        (Edits t (line_step (t.input_buffer.max - 1) c (contents t.input_buffer)))
unfolding type_char line_step
type_char-Edits current c t v = elim (Bool-cases (c == 8)) [
  | inl back ↦
      let (r, run, done) = erase_char-Edits current t v in
      (r, ground (arith, back, v.icanon, v.raw, run), rw back done)
  | inr other ↦ elim (Bool-cases (c == b'\n' || c == b'\r')) [
    | inl last ↦
        let (r, run, done) = store_char-Edits current c t.echo complete t v in
        (r, ground (arith, other, last, v.icanon, v.raw, run), rw (other, last) done)
    | inr inner ↦
        let (r, run, done) = store_char-Edits current c t.echo more t v in
        (r, ground (arith, other, inner, v.icanon, v.raw, run), rw (other, inner) done)
  ]
]
