-- ===== src/Signals.antt =====
-- kernel/proc/ipc.c: signal sets, the signal mask, and the delivery of signals. A set is its array of
-- 64-bit words. A negative signal number takes the branch of 0.
pub mod Sets
pub mod Mask
pub mod Round
pub mod Delivery
mod Tests
use Prim.Native.Nat.{bit_and, bit_or}
use night_os.Base.{
  ℕ, zero, suc, ◌+◌, ◌-◌, ◌/◌, ◌%◌, ◌^◌, Bool, true, false, ◌||◌, ◌&&◌, not, Option, none, some,
  List, [], ◌∷◌, ◌++◌, length, get_elem?, set, replicate, ltb, leb, ◌==◌, if◌then◌else◌, Run, ok,
  fault, blocked, ◌>>=◌,
}
use night_os.Base.Bits.{complement}

-- `SIGSET_NWORDS`
abbrev pub sigset_nwords : ℕ
sigset_nwords = 16

abbrev pub Sigset : Type 0
Sigset = List ℕ

-- `sigemptyset`
pub sigemptyset : Sigset
sigemptyset = replicate sigset_nwords 0

-- `sigfillset`
pub sigfillset : Sigset
sigfillset = replicate sigset_nwords (2 ^ 64 - 1)

-- `set->sig[i]`
pub word : Sigset → ℕ → Run ℕ
word s i = elim (get_elem? s i) [ none ↦ fault | some w ↦ ok w ]

-- `(signum-1)/(8*sizeof(uint32_t))` and `(signum-1)%(8*sizeof(uint32_t))`
abbrev pub index_of : ℕ → ℕ
index_of signum = (signum - 1) / 32

abbrev pub place_of : ℕ → ℕ
place_of signum = (signum - 1) % 32

abbrev pub out_of_range : ℕ → Bool
out_of_range signum = signum == 0 || ltb 1024 signum

-- `sigaddset`: `none` for the return value -1
pub sigaddset : Sigset → ℕ → Run (Option Sigset)
sigaddset s signum = if out_of_range signum then ok none else (do
  w ← word s (index_of signum)
  ok (some (set s (index_of signum) (bit_or w (2 ^ place_of signum)))))

-- `sigdelset`
pub sigdelset : Sigset → ℕ → Run (Option Sigset)
sigdelset s signum = if out_of_range signum then ok none else (do
  w ← word s (index_of signum)
  ok (some (set s (index_of signum) (bit_and w (complement 64 (2 ^ place_of signum))))))

-- `sigismember`: `none` for the return value -1
pub sigismember : Sigset → ℕ → Run (Option Bool)
sigismember s signum =
    if out_of_range signum
    then ok none
    else (do w ← word s (index_of signum); ok (some (not (bit_and w (2 ^ place_of signum) == 0))))

-- the loop of `has_pending_signals`
pub has_pending_signals : Sigset → Bool
has_pending_signals [] = false
has_pending_signals (w ∷ s) = not (w == 0) || has_pending_signals s

pub data How : Type 0 where
  block unblock setmask : How

-- the loop of `SIG_BLOCK`
pub union : Sigset → Sigset → Sigset
union (a ∷ new) (b ∷ old) = bit_or a b ∷ union new old
union _ old = old

-- The truth of what `sigismember` returns: -1 counts as true.
abbrev pub truth : Option Bool → Bool
truth none = true
truth (some b) = b

abbrev pub or_same : Option Sigset → Sigset → Sigset
or_same none s = s
or_same (some t) s = t

-- the body of the loop of `SIG_UNBLOCK`
pub drop_signal : Bool → Sigset → ℕ → Run Sigset
drop_signal false old i = ok old
drop_signal true old i = do removed ← sigdelset old i; ok (or_same removed old)

-- the loop of `SIG_UNBLOCK` from `i` on
pub unblock_loop : ℕ → ℕ → Sigset → Sigset → Run Sigset
unblock_loop zero i new old = ok old
unblock_loop (suc rounds) i new old = do
  member ← sigismember new i
  old ← drop_signal (truth member) old i
  unblock_loop rounds (i + 1) new old

-- `process_set_signal_mask`: the new blocked set
pub set_signal_mask : How → Sigset → Sigset → Run Sigset
set_signal_mask block new old = ok (union new old)
set_signal_mask unblock new old = unblock_loop sigset_nwords 0 new old
set_signal_mask setmask new old = ok old

-- `signal_handler_t`; a handler is its address, 0 for `SIG_DFL`.
pub record Handler : Type 0 where
  pub handler : ℕ
  pub sa_mask : Sigset
  pub sa_flags : ℕ
  pub sa_restorer : ℕ

-- the fields of `process_t` that signals concern
pub record Process : Type 0 where
  pub finished : Bool
  pub signal_handlers : List Handler
  pub blocked_signals : Sigset
  pub pending_signals : Sigset

-- The numbers of `<signal.h>`, which is not part of the repository.
pub record Numbers : Type 0 where
  pub sigkill : ℕ
  pub terminating : List ℕ
  pub stopping : List ℕ
  pub sa_nodefer : ℕ

abbrev pub has : ℕ → List ℕ → Bool
has n [] = false
has n (m ∷ ms) = n == m || has n ms

-- What a delivery does outside the process's fields: `process_exit(0)`, sleeping until a signal is
-- pending, nothing, or the entry into the handler of the program.
pub data Effect : Type 0 where
  exit stop ignore : Effect
  enter : ℕ → Effect

pub handler_of : Process → ℕ → Run Handler
handler_of p signum = elim (get_elem? p.signal_handlers signum) [ none ↦ fault | some h ↦ ok h ]

-- the `switch` over the signals without a handler, and the test for `SIG_DFL` behind it
pub default_effect : Numbers → ℕ → Effect
default_effect num signum =
    if has signum num.terminating
    then exit
    else if has signum num.stopping
    then stop
    else if signum == num.sigkill
    then exit
    else ignore

-- `process_send_signal`
pub send_signal : ℕ → Process → Run Process
send_signal signum p = if p.finished then ok p else if ltb 32 signum then ok p else (do
  added ← sigaddset p.pending_signals signum
  ok (record p { pending_signals = or_same added p.pending_signals }))

-- the signals that others send while the process sleeps once
pub send_all : List ℕ → Process → Run Process
send_all [] p = ok p
send_all (signum ∷ sent) p = do p ← send_signal signum p; send_all sent p

-- The loop that sleeps until a signal is pending: `wakes` has the signals sent in each sleep, and the
-- process sleeps for good behind them.
pub wait_pending : List (List ℕ) → Process → Run (Process × List (List ℕ))
wait_pending [] p = if has_pending_signals p.pending_signals then ok (p, []) else blocked
wait_pending (sent ∷ wakes) p = elim (has_pending_signals p.pending_signals) [
  | true ↦ ok (p, sent ∷ wakes)
  | false ↦ do p ← send_all sent p; wait_pending wakes p
]

-- what the process waits for in the `switch`
pub after_default : Effect → List (List ℕ) → Process → Run (Process × List (List ℕ))
after_default stop wakes p = wait_pending wakes p
after_default _ wakes p = ok (p, wakes)

-- `handle_signal`, with the wake-ups that are left
pub handle_signal : Numbers → List (List ℕ) → Process → ℕ → Run (Process × Effect × List (List ℕ))
handle_signal num wakes p signum = do
  h ← handler_of p signum
  if h.handler == 0
      then (do
        (p, wakes) ← after_default (default_effect num signum) wakes p
        ok (p, default_effect num signum, wakes))
      else (do
        mask ←
            (if bit_and h.sa_flags num.sa_nodefer == 0 then ok p.blocked_signals else (do
              added ← sigaddset p.blocked_signals signum
              ok (or_same added p.blocked_signals)))
        ok (record p { blocked_signals = mask }, enter signum, wakes))

-- `process_set_signal_handler`; bit 26 of the flags is `SA_RESTORER`.
pub set_signal_handler : ℕ → Handler → Process → Run Process
set_signal_handler signum action p = do
  h ← handler_of p signum
  let restorer = if bit_and action.sa_flags (2 ^ 26) == 0 then h.sa_restorer else action.sa_restorer
  ok (record p {
    signal_handlers = set p.signal_handlers signum (record action { sa_restorer = restorer });
  })

-- one round of the loop of `process_check_signals`
pub check_signal :
    Numbers → List (List ℕ) → Process → ℕ → Run (Process × List Effect × List (List ℕ))
check_signal num wakes p i = do
  pending ← sigismember p.pending_signals i
  masked ← sigismember p.blocked_signals i
  if truth pending && not (truth masked)
      then (do
        removed ← sigdelset p.pending_signals i
        let p = record p { pending_signals = or_same removed p.pending_signals }
        (p, e, wakes) ← handle_signal num wakes p i
        ok (p, e ∷ [], wakes))
      else ok (p, [], wakes)

-- Control does not come back: from `process_exit`, and from `process_enter_signal`, which ends in an
-- `iretq` into the handler.
abbrev pub leaves : List Effect → Bool
leaves [] = false
leaves (exit ∷ es) = true
leaves (enter k ∷ es) = true
leaves (stop ∷ es) = false
leaves (ignore ∷ es) = false

-- the loop of `process_check_signals`
pub check_loop : Numbers → ℕ → ℕ → List (List ℕ) → Process → Run (Process × List Effect)
check_loop num zero i wakes p = ok (p, [])
check_loop num (suc rounds) i wakes p = do
  (p, now, wakes) ← check_signal num wakes p i
  elim (leaves now) [
    | true ↦ ok (p, now)
    | false ↦ do (p, later) ← check_loop num rounds (i + 1) wakes p; ok (p, now ++ later)
  ]

-- `process_check_signals`
pub check_signals : Numbers → List (List ℕ) → Process → Run (Process × List Effect)
check_signals num wakes p = if p.finished then ok (p, []) else check_loop num 31 1 wakes p
