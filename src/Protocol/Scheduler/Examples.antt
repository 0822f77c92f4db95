-- ===== src/Protocol/Scheduler/Examples.antt =====
-- The schedule controller on concrete calls.
use mieru.Common.{◌≡◌, ◌≤◌, refl, true, false, some, [], ◌∷◌, arith}
use mieru.Protocol.Scheduler.{
  ScheduleController, new_controller, is_disabled, inc_pending, dec_pending, try_disable_idle,
}
use mieru.Protocol.Scheduler.Runs.{
  inc, dec, set_remaining, run, disabled_for_good, try_disable_idle_lem,
}

abbrev disabled : ScheduleController
disabled = record { pending = 1; last_schedule_time = some 40; disable_time = some 50 }

disabled_for_good_example :
    let c' = run 100 ((60, inc) ∷ (70, dec) ∷ (80, set_remaining (some 5)) ∷ []) disabled in
    (c'.disable_time ≡ some 50)
    × (c'.pending ≤ 1)
    × (is_disabled 90 c' ≡ true)
    × (inc_pending 90 c' ≡ (false, c'))
disabled_for_good_example =
    disabled_for_good 100 50 90 ((60, inc) ∷ (70, dec) ∷ (80, set_remaining (some 5)) ∷ []) disabled
      refl (omega arith, (omega arith, (omega arith, tt))) (omega arith)

-- A session from 20 to 40, and an idle time of 100.
try_disable_idle_lem_example :
    let taken = (inc_pending 20 new_controller).1 in
    let gone = dec_pending 40 taken in
    let disabled = record gone { disable_time = some 200 } in
    ((inc_pending 20 new_controller).0 ≡ true)
    × (try_disable_idle 100 200 taken ≡ (false, taken))
    × (try_disable_idle 100 200 gone ≡ (true, disabled))
    × ((inc_pending 300 disabled).0 ≡ false)
try_disable_idle_lem_example =
    try_disable_idle_lem 100 20 40 200 300 new_controller refl refl (omega arith)
