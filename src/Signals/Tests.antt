-- ===== src/Signals/Tests.antt =====
-- The theorems about signals at concrete sets and processes.
use night_os.Base.{◌≡◌, refl, false, some, [], ◌∷◌, ok, replicate, set}
use night_os.Signals.{
  Sigset, Process, Handler, Numbers, How, block, unblock, sigemptyset, sigaddset, sigdelset,
  sigismember, set_signal_mask, send_signal, check_signals, ignore, enter,
}

-- signals 2 and 33
abbrev two : Sigset
two = 2 ∷ 1 ∷ replicate 14 0

-- signals 1, 2 and 3
abbrev three : Sigset
three = 7 ∷ replicate 15 0

add_33 : sigaddset (replicate 16 0) 33 ≡ ok (some (0 ∷ 1 ∷ replicate 14 0))
unfolding sigaddset night_os.Signals.word
add_33 = refl

abbrev default_handler : Handler
default_handler = record { handler = 0; sa_mask = []; sa_flags = 0; sa_restorer = 0 }

-- signals 1 to 3 are pending, and 2 is blocked
abbrev busy : Process
busy = record {
  finished = false;
  signal_handlers =
      set (replicate 32 default_handler) 3
        (record default_handler { handler = 4096; sa_flags = 1 });
  blocked_signals = two;
  pending_signals = three;
}

abbrev numbers : Numbers
numbers = record { sigkill = 9; terminating = 6 ∷ 11 ∷ 15 ∷ []; stopping = 19 ∷ []; sa_nodefer = 1 }

-- the process enters the handler of signal 3 behind the default of signal 1, which is to ignore it
check_signals-busy :
    check_signals numbers [] busy
    ≡ ok (
      record busy {
        pending_signals = 2 ∷ replicate 15 0;
        blocked_signals = 6 ∷ 1 ∷ replicate 14 0;
      },
      ignore ∷ enter 3 ∷ [],
    )
unfolding check_signals night_os.Signals.check_loop night_os.Signals.check_signal
    night_os.Signals.handle_signal night_os.Signals.handler_of night_os.Signals.default_effect
    night_os.Signals.after_default sigaddset sigdelset sigismember night_os.Signals.word
check_signals-busy = refl
