-- ===== src/Quickjs/Examples.antt =====
-- A script that sets a timer for a function: the theorem at a concrete input, and the timer cleared
-- after it has fired.
use cpp_custom.Prelude.{Option, true, none, some, ◌≡◌, refl}
use cpp_custom.Quickjs.Timers.{
  State, dup_value, free_value, Arguments, add_timer, js_set_timeout, timer_stop, js_clear_timeout,
}
use cpp_custom.Quickjs.Counted.{
  step, start_state, Reach, begin, later, keeps, drops, clears, fires, sets, returns,
}
use cpp_custom.Quickjs.Balance.{Goes}
use cpp_custom.Quickjs.Runs.{Reach-Goes}

abbrev arguments : Arguments
arguments = record {
  func = some 7;
  delay = some 10;
  handle_allocated = true;
  number_made = true;
  data_allocated = true;
}

abbrev after : Option State → State
after none = start_state
after (some s) = s

abbrev kept : State
kept = after (step (keeps 7) start_state)

abbrev with_timer : State
with_timer = after (step (sets arguments) kept)

reached : Reach with_timer
unfolding step dup_value js_set_timeout add_timer
reached = later (sets arguments) (later (keeps 7) begin tt refl) refl refl

Reach-Goes_example : Goes (step (fires 0) with_timer)
unfolding step dup_value js_set_timeout add_timer
Reach-Goes_example = Reach-Goes (fires 0) reached refl

-- The function returns, the script clears the timer and drops its own reference.
cleared_late :
    step
      (drops 7)
      (after (step (clears 0) (after (step returns (after (step (fires 0) with_timer))))))
    ≡ none
unfolding step dup_value js_set_timeout add_timer free_value js_clear_timeout timer_stop
cleared_late = refl
