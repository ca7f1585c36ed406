-- ===== src/Pty/Lines.antt =====
-- What `pty_write_to_input` makes of the input in canonical mode, against a line editor on lists.
use night_os.Base.{
  ℕ, ◌+◌, ◌-◌, ◌≡◌, refl, ap, ap₂, ◌∙◌, Bool, true, false, ◌||◌, not, List, [], ◌∷◌, arith,
  if◌then◌else◌, ok, Returns,
}
use night_os.Mutex.{Pid}
use night_os.RingBuffer.Contents.{contents}
use night_os.Pty.{
  Pty, Next, more, broken, complete, signal_input_ready, type_char, type_chars, write_to_input,
}
use night_os.Pty.Echo.{Canonical}
use night_os.Pty.Typing.{line_step, type_char-Edits}

-- the line editor on the bytes of one call: the count taken, whether the line ended, and the line
unfoldable pub edit_line : ℕ → List ℕ → List ℕ → ℕ × Bool × List ℕ
edit_line capacity [] line = (0, false, line)
edit_line capacity (c ∷ bytes) line =
    let (counted, next, line') = line_step capacity c line in
    let n = if counted then 1 else 0 in
    elim next [
      | broken ↦ (n, false, line')
      | complete ↦ (n, true, line')
      | more ↦ let (rest, ended, final) = edit_line capacity bytes line' in (n + rest, ended, final)
    ]

edit_line-more :
    (capacity c : ℕ) (bytes line : List ℕ) {counted : Bool} {line' : List ℕ}
    → line_step capacity c line ≡ (counted, more, line')
    → edit_line capacity (c ∷ bytes) line
      ≡ (let r = edit_line capacity bytes line' in ((if counted then 1 else 0) + r.0, r.1, r.2))
unfolding edit_line
edit_line-more capacity c bytes line e = ground (arith, e)

edit_line-broken :
    (capacity c : ℕ) (bytes line : List ℕ) {counted : Bool} {line' : List ℕ}
    → line_step capacity c line ≡ (counted, broken, line')
    → edit_line capacity (c ∷ bytes) line ≡ (if counted then 1 else 0, false, line')
unfolding edit_line
edit_line-broken capacity c bytes line e = ground (arith, e)

edit_line-complete :
    (capacity c : ℕ) (bytes line : List ℕ) {counted : Bool} {line' : List ℕ}
    → line_step capacity c line ≡ (counted, complete, line')
    → edit_line capacity (c ∷ bytes) line ≡ (if counted then 1 else 0, true, line')
unfolding edit_line
edit_line-complete capacity c bytes line e = ground (arith, e)

-- `type_chars` did what the line editor does.
abbrev pub Typed : ℕ → ℕ × Bool × List ℕ → ℕ × Bool × Pty → Type 0
Typed max (count, ended, line) (count', ended', t') =
    (count' ≡ count)
    × (ended' ≡ ended)
    × (contents t'.input_buffer ≡ line)
    × Canonical t'
    × (t'.input_buffer.max ≡ max)

type_chars-Typed :
    (current : Pid) (bytes : List ℕ) (t : Pty)
    → Canonical t
    → Returns (type_chars current bytes t) (
        Typed t.input_buffer.max
          (edit_line (t.input_buffer.max - 1) bytes (contents t.input_buffer)))
unfolding type_chars edit_line
type_chars-Typed current [] t v = ((0, false, t), refl, (refl, refl, refl, v, refl))
type_chars-Typed current (c ∷ bytes) t v =
    let (r, run, (counted, next, line, w, max)) = type_char-Edits current c t v in
    go (λ t' w'. type_chars-Typed current bytes t' w')
      (line_step (t.input_buffer.max - 1) c (contents t.input_buffer)).1 refl r.2
      (run ∙ ap₂ (λ a b. ok (a, b, r.2)) counted next) line w max
  where
    go :
        ((t' : Pty)
          → Canonical t'
          → Returns (type_chars current bytes t') (
              Typed t'.input_buffer.max
                (edit_line (t'.input_buffer.max - 1) bytes (contents t'.input_buffer))))
        → {counted : Bool} (next : Next) {line : List ℕ}
        → line_step (t.input_buffer.max - 1) c (contents t.input_buffer) ≡ (counted, next, line)
        → (t' : Pty) → type_char current c t ≡ ok (counted, next, t')
        → contents t'.input_buffer ≡ line
        → Canonical t'
        → t'.input_buffer.max ≡ t.input_buffer.max
        → Returns (type_chars current (c ∷ bytes) t) (
            Typed t.input_buffer.max
              (edit_line (t.input_buffer.max - 1) (c ∷ bytes) (contents t.input_buffer)))
    go ih {counted} broken e t' run line w max = (
      (if counted then 1 else 0, false, t'),
      ground (arith, run),
      rw (edit_line-broken (t.input_buffer.max - 1) c bytes (contents t.input_buffer) e)
          (refl, refl, line, w, max),
    )
    go ih {counted} complete e t' run line w max = (
      (if counted then 1 else 0, true, t'),
      ground (arith, run),
      rw (edit_line-complete (t.input_buffer.max - 1) c bytes (contents t.input_buffer) e)
          (refl, refl, line, w, max),
    )
    go ih {counted} more {line} e t' run same w max =
        let (r, run', (n, ended, final, canonical, max')) = ih t' w in
        let later = ap₂ (λ k l. edit_line (k - 1) bytes l) max same in
        (
          ((if counted then 1 else 0) + r.0, r.1, r.2),
          ground (arith, run, run'),
          rw (edit_line-more (t.input_buffer.max - 1) c bytes (contents t.input_buffer) e) (
            ap (λ k. (if counted then 1 else 0) + k) (n ∙ ap (λ q. q.0) later),
            ended ∙ ap (λ q. q.1) later,
            final ∙ ap (λ q. q.2) later,
            canonical,
            max' ∙ max,
          ),
        )

signal_input_ready-contents :
    (current : Pid) (t : Pty) → ((signal_input_ready current t).input_buffer ≡ t.input_buffer)
unfolding signal_input_ready
signal_input_ready-contents current t = ground arith

-- In canonical mode `pty_write_to_input` returns as many bytes as the line editor takes, and the
-- input is then the line that the editor makes of it, within the capacity of the buffer.
pub write_to_input-edit_line :
    (current : Pid) (bytes : List ℕ) (t : Pty)
    → Canonical t
    → Returns (write_to_input current bytes t) λ r.
      let (count, ended, line) =
        edit_line (t.input_buffer.max - 1) bytes (contents t.input_buffer) in
      (r.0 ≡ count) × (contents r.1.input_buffer ≡ line)
unfolding write_to_input
write_to_input-edit_line current bytes t v =
    let (r, run, (count, ended, line, w, max)) = type_chars-Typed current bytes t v in
    let out = if (not r.2.icanon || r.2.raw) || r.1 then signal_input_ready current r.2 else r.2 in
    let same : out.input_buffer ≡ r.2.input_buffer =
      ground (arith, signal_input_ready-contents current r.2) in
    ((r.0, out), ground (arith, run), (count, ap contents same ∙ line))
