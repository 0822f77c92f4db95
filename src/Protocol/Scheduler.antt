-- ===== src/Protocol/Scheduler.antt =====
-- pkg/protocol/scheduler.go: `ScheduleController`. Times are numbers of nanoseconds after the zero
-- time, which is `none`; every method holds the lock for its whole run, so it is one step.
-- `idle_time` is `scheduleIdleTime`, which is drawn when the program starts.
pub mod Runs
pub mod Examples
use mieru.Common.{
  ℕ, suc, ◌+◌, ◌-◌, Bool, true, false, not, ◌&&◌, Option, none, some, ltb, leb, if◌then◌else◌,
}

pub record ScheduleController : Type 0 where
  pub pending : ℕ
  pub last_schedule_time : Option ℕ
  pub disable_time : Option ℕ

-- `&ScheduleController{}`
abbrev pub new_controller : ScheduleController
new_controller = record { pending = 0; last_schedule_time = none; disable_time = none }

-- `time.Since(t) > d`, after the zero time
abbrev pub longer_ago : ℕ → ℕ → Option ℕ → Bool
longer_ago now d none = true
longer_ago now d (some t) = ltb (t + d) now

abbrev pub is_zero : Option ℕ → Bool
is_zero none = true
is_zero (some t) = false

unfoldable pub is_disabled : ℕ → ScheduleController → Bool
is_disabled now c = not (is_zero c.disable_time) && longer_ago now 0 c.disable_time

unfoldable pub inc_pending : ℕ → ScheduleController → Bool × ScheduleController
inc_pending now c =
    if not (is_zero c.disable_time) && longer_ago now 0 c.disable_time
    then (false, c)
    else (true, record c { pending = c.pending + 1; last_schedule_time = some now })

-- The number is an `int`, which goes below 0 where a call follows an `IncPending` that returned false;
-- here it stays at 0.
unfoldable pub dec_pending : ℕ → ScheduleController → ScheduleController
dec_pending now c = record c { pending = c.pending - 1; last_schedule_time = some now }

unfoldable pub idle : ℕ → ℕ → ScheduleController → Bool
idle idle_time now c =
    not (is_zero c.disable_time)
    && longer_ago now idle_time c.last_schedule_time
    && longer_ago now idle_time c.disable_time

-- `time.Since(t) < d` for a time that is not zero
abbrev pub sooner_than : ℕ → ℕ → Option ℕ → Bool
sooner_than now d none = false
sooner_than now d (some t) = ltb now (t + d)

unfoldable pub try_disable_idle : ℕ → ℕ → ScheduleController → Bool × ScheduleController
try_disable_idle idle_time now c =
    if not (is_zero c.disable_time)
    then (false, c)
    else if ltb 0 c.pending
    then (false, c)
    else if sooner_than now idle_time c.last_schedule_time
    then (false, c)
    else (true, record c { disable_time = some now })

-- `SetRemainingTime`; a negative duration, which is ignored, is `none`.
unfoldable pub set_remaining_time : ℕ → Option ℕ → ScheduleController → ScheduleController
set_remaining_time now none c = c
set_remaining_time now (some d) c =
    if not (is_zero c.disable_time) then c else record c { disable_time = some (now + d) }
