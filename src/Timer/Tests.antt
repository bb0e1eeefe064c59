-- ===== src/Timer/Tests.antt =====
-- The timer at concrete states.
use ap_pa.Base.{
  ℕ, ◌+◌, ◌%◌, ◌^◌, ◌<◌, ◌≡◌, refl, arith, true, [], ◌∷◌, Option, none, some, length, inl, inr,
  ==_iff, Bool-cases, if◌then◌else◌, ◌==◌,
}
use ap_pa.Stdio.{utoa}
use ap_pa.CString.Number.{uitoa, uitoa_loop, uitoa-utoa}
use ap_pa.Sched.{Task, TaskState, is_running}
use ap_pa.Timer.{
  Timer, timer_handler, timer_init, get_timer_ticks, get_uptime_seconds, get_uptime_string,
}
use ap_pa.Timer.Run.{interrupts, Scheduled, interrupts-Scheduled}
use ap_pa.Timer.Uptime.{Shown, get_uptime_string-Shown}

abbrev alone : ℕ → Task
alone t = record {
  state = if t == 100 then TaskState.running else TaskState.blocked;
  esp0 = 0;
  cr3 = 0;
  next = 100;
}

abbrev start : Timer
start = record {
  timer_ticks = 372500;
  sched = record {
    tasks = alone;
    current_task = 100;
    ready_head = 100;
    scheduler_on = true;
    slice_remaining = 1;
    tss_esp0 = 0;
    cr3 = 0;
    kernel_cr3 = 0;
  };
}

start-Scheduled : Scheduled start.sched (100 ∷ [])
start-Scheduled = record {
  queue = record {
    circle = (refl, refl);
    distinct = (tt, tt);
    no_null = (omega arith, tt);
    few = omega arith;
  };
  one = record { current = refl; only = only };
  member = ([], [], refl);
}
  where
    only : (t : ℕ) → is_running (alone t).state ≡ true → t ≡ 100
    only t h = elim (Bool-cases (t == 100)) [
      | inl e ↦ (==_iff t 100).0 e
      | inr e ↦ let no = rw e at h in absurd cc
    ]

interrupts-Scheduled_example :
    (t' : Timer) × (interrupts 3 start ≡ some t')
    × Scheduled t'.sched (100 ∷ [])
    × (t'.timer_ticks ≡ (372500 + 3) % 2 ^ 32)
interrupts-Scheduled_example = interrupts-Scheduled 3 start (100 ∷ []) start-Scheduled (omega arith)

get_uptime_string-Shown_example :
    Shown (get_uptime_seconds start) (get_uptime_string start)
    × (length (get_uptime_string start) < 32)
get_uptime_string-Shown_example = get_uptime_string-Shown start (omega arith)

uitoa-utoa_example : uitoa 48879 16 ≡ utoa 48879 16
uitoa-utoa_example = uitoa-utoa 48879 16 (omega arith) (omega arith) (omega arith)

-- 3725 seconds.
uptime : get_uptime_string start ≡ b'1' ∷ b'h' ∷ b' ' ∷ b'2' ∷ b'm' ∷ []
unfolding get_uptime_string get_uptime_seconds
uptime = refl

digits : uitoa_loop 3 46 16 ≡ b'e' ∷ b'2' ∷ []
unfolding uitoa_loop
digits = refl

abbrev ticks_of : Option Timer → ℕ
ticks_of none = 0
ticks_of (some t) = t.timer_ticks

ticked :
    (ticks_of (timer_handler start) ≡ 372501)
    × (get_timer_ticks (timer_init (λ i. none) start).1 ≡ 0)
unfolding timer_handler timer_init get_timer_ticks
ticked = (refl, refl)
