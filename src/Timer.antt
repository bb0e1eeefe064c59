-- ===== src/Timer.antt =====
-- kernel/sys/timer.c: the tick counter, the handler of the timer interrupt, which calls the scheduler,
-- and the uptime. A text is the bytes before the NUL; `strcat` of a text appends it.
pub mod Run
pub mod Uptime
mod Tests
use mathlib.Core.Option
use ap_pa.Base.{
  ℕ, ◌+◌, ◌/◌, ◌%◌, Option, none, some, List, [], ◌∷◌, ◌++◌, ltb, if◌then◌else◌, add32,
}
use ap_pa.CString.Number.{uitoa}
use ap_pa.Interrupt.{Handlers, register_interrupt_handler}
use ap_pa.Sched.{Sched, schedule}

abbrev pub timer_frequency : ℕ
timer_frequency = 100

pub record Timer : Type 0 where
  pub timer_ticks : ℕ
  pub sched : Sched

-- `none` is a queue on which the scheduler does not return.
pub timer_handler : Timer → Option Timer
unfolding schedule
timer_handler t =
    let timer_ticks = add32 t.timer_ticks 1 in
    Option.map (λ sched. record { timer_ticks = timer_ticks; sched = sched }) (schedule t.sched)

-- The handler is registered for the vector of IRQ 0.
pub timer_init : Handlers (Option Timer) → Timer → Handlers (Option Timer) × Timer
unfolding register_interrupt_handler timer_handler
timer_init handlers t = (
  register_interrupt_handler handlers 32
      (λ regs o. elim o as (λ o. Option Timer) [ none ↦ none | some t ↦ timer_handler t ]),
  record t { timer_ticks = 0 },
)

pub get_timer_ticks : Timer → ℕ
get_timer_ticks t = t.timer_ticks

pub get_uptime_seconds : Timer → ℕ
get_uptime_seconds t = t.timer_ticks / timer_frequency

pub get_uptime_string : Timer → List ℕ
unfolding get_uptime_seconds uitoa
get_uptime_string t =
    let total_seconds = get_uptime_seconds t in
    if ltb total_seconds 60
    then uitoa total_seconds 10 ++ (b's' ∷ [])
    else if ltb total_seconds 3600
    then uitoa (total_seconds / 60) 10
      ++ (b'm' ∷ b' ' ∷ (uitoa (total_seconds % 60) 10 ++ (b's' ∷ [])))
    else uitoa (total_seconds / 3600) 10
      ++ (b'h' ∷ b' ' ∷ (uitoa (total_seconds % 3600 / 60) 10 ++ (b'm' ∷ [])))
