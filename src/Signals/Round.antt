-- ===== src/Signals/Round.antt =====
-- What `process_send_signal` and one round of `process_check_signals` do to the pending set.
use Prim.Native.Nat.{bit_and}
use night_os.Base.{
  ℕ, ◌≡◌, ◌<◌, ◌≤◌, ◌⊎◌, refl, ap, ◌∙◌, true, false, ◌&&◌, not, Option, none, some, List, [], ◌∷◌,
  length, get_or, ◌==◌, if◌then◌else◌, Run, ok, arith, Returns, Bool-cases, inl, inr,
  get_elem?-eq-get_or,
}
use night_os.Base.Bits.{digit-le}
use night_os.Signals.{
  index_of, place_of, Sigset, Process, Numbers, Handler, enter, sigaddset, sigdelset, handler_of,
  handle_signal, default_effect, send_signal, check_signal, leaves, has, after_default,
}
use night_os.Signals.Sets.{
  member, IsSized, HasRoom, Changes, sigaddset-Changes, sigdelset-Changes, sigismember-member,
}

pub record IsValid (p : Process) : Type 0 where
  pub handlers : length p.signal_handlers ≡ 32
  pub blocked : IsSized p.blocked_signals
  pub pending : IsSized p.pending_signals

abbrev pub pends : Process → ℕ → ℕ
pends p n = member p.pending_signals n

abbrev pub blocks : Process → ℕ → ℕ
blocks p n = member p.blocked_signals n

-- a valid process whose pending set is that of `p` with signal `i` set to `bit`, seen at signal `n`,
-- and whose blocked set is as it was at signals other than `i`
pub record Touched (p : Process) (i bit n : ℕ) (p' : Process) : Type 0 where
  pub valid : IsValid p'
  pub pending : pends p' n ≡ (if n == i then bit else pends p n)
  pub blocked : (n ≡ i) ⊎ (blocks p' n ≡ blocks p n)

Changes-some :
    (s : Sigset) (n bit m : ℕ) (a : Run (Option Sigset))
    → Returns a (Changes s n bit m)
    → (t : Sigset) × (a ≡ ok (some t))
      × IsSized t
      × (member t m ≡ (if m == n then bit else member s m))
Changes-some s n bit m a (none, e, c) = elim c [ ]
Changes-some s n bit m a (some t, e, c) = (t, e, c.0, c.1)

-- no signal that would stop the process is pending
abbrev pub NoneStops : Numbers → Process → Type 0
NoneStops num p = (k : ℕ) → HasRoom k → has k num.stopping ≡ true → pends p k ≡ 0

-- pending and not blocked
abbrev pub IsReady : Process → ℕ → Type 0
IsReady p k = (pends p k ≡ 1) × ((blocks p k == 1) ≡ false)

after_default-awake :
    (num : Numbers) (i : ℕ) (wakes : List (List ℕ)) (p : Process)
    → has i num.stopping ≡ false
    → after_default (default_effect num i) wakes p ≡ ok (p, wakes)
unfolding after_default default_effect
after_default-awake num i wakes p awake = ground (arith, awake)

module _ (n : ℕ) (hn : HasRoom n) where
  -- Sending a signal from 1 to 32 to a process that has not finished makes exactly it pending.
  pub send_signal-Touched :
      (signum : ℕ) (p : Process)
      → IsValid p
      → p.finished ≡ false
      → 0 < signum
      → signum ≤ 32
      → Returns (send_signal signum p) (Touched p signum 1 n)
  unfolding send_signal
  send_signal-Touched signum p v alive pos_s le_s =
      let hs : HasRoom signum = omega arith in
      let (t, e, sized, m) =
        Changes-some p.pending_signals signum 1 n (sigaddset p.pending_signals signum)
          (sigaddset-Changes p.pending_signals signum n v.pending hs hn) in
      (
        record p { pending_signals = t },
        ground (arith, e),
        record {
          valid = record { handlers = v.handlers; blocked = v.blocked; pending = sized };
          pending = m;
          blocked = inr refl;
        },
      )

  handle_signal-Touched :
      (num : Numbers) (wakes : List (List ℕ)) (i : ℕ) (p : Process)
      → IsValid p
      → has i num.stopping ≡ false
      → 0 < i
      → i < 32
      → Returns (handle_signal num wakes p i) λ r.
        IsValid r.0
        × (r.0.pending_signals ≡ p.pending_signals)
        × ((n ≡ i) ⊎ (blocks r.0 n ≡ blocks p n))
  unfolding handle_signal handler_of
  handle_signal-Touched num wakes i p v awake pos_i lt =
      let none_yet : Handler = record {
        handler = 0;
        sa_mask = [];
        sa_flags = 0;
        sa_restorer = 0;
      } in
      let h = get_or p.signal_handlers i none_yet in
      let found = get_elem?-eq-get_or p.signal_handlers i none_yet (omega (arith, v.handlers)) in
      let hi : HasRoom i = omega arith in
      let (t, e, sized, m) =
        Changes-some p.blocked_signals i 1 n (sigaddset p.blocked_signals i)
          (sigaddset-Changes p.blocked_signals i n v.blocked hi hn) in
      elim (Bool-cases (h.handler == 0)) [
        | inl dfl ↦ (
          (p, default_effect num i, wakes),
          ground (arith, found, dfl, after_default-awake num i wakes p awake),
          (v, refl, inr refl),
        )
        | inr installed ↦ elim (Bool-cases (bit_and h.sa_flags num.sa_nodefer == 0)) [
          | inl plain ↦
              ((p, enter i, wakes), ground (arith, found, installed, plain), (v, refl, inr refl))
          | inr nodefer ↦ (
            (record p { blocked_signals = t }, enter i, wakes),
            ground (arith, found, installed, nodefer, e),
            (
              record { handlers = v.handlers; blocked = sized; pending = v.pending },
              refl,
              ground (arith, m),
            ),
          )
        ]
      ]

  -- One round delivers signal `i` if it is pending and not blocked, and only then leaves.
  pub check_signal-Touched :
      (num : Numbers) (wakes : List (List ℕ)) (i : ℕ) (p : Process)
      → IsValid p
      → NoneStops num p
      → 0 < i
      → i < 32
      → Returns (check_signal num wakes p i) λ r.
        Touched p i (if blocks p i == 1 then pends p i else 0) n r.0
        × (leaves r.1 ≡ true → IsReady p i)
  unfolding check_signal
  check_signal-Touched num wakes i p v calm pos_i lt =
      let hi : HasRoom i = omega arith in
      let pending = sigismember-member p.pending_signals i v.pending hi in
      let blocked = sigismember-member p.blocked_signals i v.blocked hi in
      elim (Bool-cases ((pends p i == 1) && not (blocks p i == 1))) [
        | inl go ↦
            let (t, e, sized, m) =
              Changes-some p.pending_signals i 0 n (sigdelset p.pending_signals i)
                (sigdelset-Changes p.pending_signals i n v.pending hi hn) in
            let q = record p { pending_signals = t } in
            let (r, run, (w, same, other)) =
              handle_signal-Touched num wakes i q
                (record { handlers = v.handlers; blocked = v.blocked; pending = sized })
                (ground (arith, calm i hi, go)) pos_i lt in
            (
              (r.0, r.1 ∷ [], r.2),
              ground (arith, pending, blocked, e, run, go),
              (
                record {
                  valid = w;
                  pending = ap (λ s. member s n) same ∙ m ∙ ground arith;
                  blocked = other;
                },
                λ _. ground (arith, go),
              ),
            )
        | inr stay ↦ (
          (p, [], wakes),
          ground (arith, pending, blocked, stay),
          (
            record {
              valid = v;
              pending = ground (
                arith,
                stay,
                digit-le (get_or p.pending_signals (index_of i) 0) (place_of i),
                ap (pends p),
              );
              blocked = inr refl;
            },
            λ l. ground (arith, l),
          ),
        )
      ]
