-- ===== src/Protocol/Scheduler/Runs.antt =====
-- Runs of calls on the schedule controller.
use mieru.Common.{
  ℕ, ◌+◌, ◌-◌, ◌≤◌, ◌<◌, ◌≡◌, refl, inl, inr, true, false, Option, none, some, List, [], ◌∷◌, leb,
  ltb, if◌then◌else◌, arith, Bool-cases, All,
}
use mieru.Protocol.Scheduler.{
  ScheduleController, is_disabled, inc_pending, dec_pending, try_disable_idle, set_remaining_time,
}

pub data Call : Type 0 where
  inc dec try_disable : Call
  set_remaining : Option ℕ → Call

abbrev pub call : ℕ → ℕ → Call → ScheduleController → ScheduleController
call idle_time now inc c = (inc_pending now c).1
call idle_time now dec c = dec_pending now c
call idle_time now try_disable c = (try_disable_idle idle_time now c).1
call idle_time now (set_remaining d) c = set_remaining_time now d c

-- Calls with their times.
abbrev pub run : ℕ → List (ℕ × Call) → ScheduleController → ScheduleController
run idle_time [] c = c
run idle_time ((now, f) ∷ calls) c = run idle_time calls (call idle_time now f c)

call-disabled :
    (idle_time now t : ℕ) (f : Call) (c : ScheduleController)
    → c.disable_time ≡ some t
    → t < now
    → ((call idle_time now f c).disable_time ≡ some t)
      × ((call idle_time now f c).pending ≤ c.pending)
unfolding inc_pending dec_pending try_disable_idle set_remaining_time
call-disabled idle_time now t inc c e h = rw e (ground arith)
call-disabled idle_time now t dec c e h = (e, omega arith)
call-disabled idle_time now t try_disable c e h = ground arith
call-disabled idle_time now t (set_remaining none) c e h = (e, omega arith)
call-disabled idle_time now t (set_remaining (some d)) c e h = ground arith

-- From the time it is disabled on, a controller stays disabled with the same disable time, and takes
-- no new session: no run of calls increases the number of pending ones, and `IncPending` fails.
pub disabled_for_good :
    (idle_time t now : ℕ) (calls : List (ℕ × Call)) (c : ScheduleController)
    → c.disable_time ≡ some t
    → All (λ (x : ℕ × Call). t < x.0) calls
    → t < now
    → let c' = run idle_time calls c in
      (c'.disable_time ≡ some t)
      × (c'.pending ≤ c.pending)
      × (is_disabled now c' ≡ true)
      × (inc_pending now c' ≡ (false, c'))
unfolding is_disabled inc_pending
disabled_for_good idle_time t now [] c e later h = (e, omega arith, ground arith, ground arith)
disabled_for_good idle_time t now ((at, f) ∷ calls) c e (later, rest) h =
    let (same, fewer) = call-disabled idle_time at t f c e later in
    let (same', fewer', out, refused) =
      disabled_for_good idle_time t now calls (call idle_time at f c) same rest h in
    (same', omega (arith, fewer, fewer'), out, refused)

-- While a session that came at `t` is pending, an underlay that is in use is not disabled. Once it
-- has gone, at `u`, and it was the last one, `TryDisableIdle` fails and changes nothing until the idle
-- time is over since then; from then on it disables the underlay, and a later session is refused.
pub try_disable_idle_lem :
    (idle_time t u now later : ℕ) (c : ScheduleController)
    → c.disable_time ≡ none
    → c.pending ≡ 0
    → now < later
    → let taken = (inc_pending t c).1 in
      let gone = dec_pending u taken in
      let disabled = record gone { disable_time = some now } in
      ((inc_pending t c).0 ≡ true)
      × (try_disable_idle idle_time now taken ≡ (false, taken))
      × (try_disable_idle idle_time now gone
          ≡ (if leb (u + idle_time) now then (true, disabled) else (false, gone)))
      × ((inc_pending later disabled).0 ≡ false)
unfolding inc_pending dec_pending try_disable_idle
try_disable_idle_lem idle_time t u now later c on free after =
    let some_pending : ltb 0 (c.pending + 1) ≡ true = ground arith in
    let none_pending : ltb 0 (c.pending + 1 - 1) ≡ false = ground (arith, free) in
    let refused : ltb (now + 0) later ≡ true = ground arith in
    elim (Bool-cases (ltb now (u + idle_time))) [
      | inl soon ↦
          let wait : leb (u + idle_time) now ≡ false = ground (arith, soon) in
          rw (on, some_pending, none_pending, soon, wait, refused) (refl, refl, refl, refl)
      | inr late ↦
          let over : leb (u + idle_time) now ≡ true = ground (arith, late) in
          rw (on, some_pending, none_pending, late, over, refused) (refl, refl, refl, refl)
    ]
