-- ===== src/Quickjs/Runs.antt =====
-- Every run of scripts and the loop.
use cpp_custom.Prelude.{
  List, Option, [], ◌∷◌, true, false, none, some, ℕ, suc, ◌+◌, ◌<◌, ◌≡◌, refl, sym, ap, subst,
  some-injective, ◌∙◌, arith, get_elem?, set,
}
use cpp_custom.Quickjs.Timers.{
  Timer, State, free_value, timer_stop, returned, js_clear_timeout, finish,
}
use cpp_custom.Quickjs.Counted.{
  Action, state_of, step, is_active, is_null, Allowed, Reach, active_for, running_for, Counted,
  freed, free_value-freed, one-same, update-less, begin, later, keeps, drops, clears, fires, sets,
  returns,
}
use cpp_custom.Quickjs.Balance.{
  Goes, keep-Goes, drop-Goes, clear-Goes, fire-Goes, set-Goes, return-Goes,
}

active_timer :
    (o : Option Timer) → is_active o ≡ true → (t : Timer) × (o ≡ some t) × (t.active ≡ true)
active_timer none h = ground arith
active_timer (some t) h = (t, refl, h)

return-step :
    (s : State) (is : List ℕ) → Counted s → s.running ≡ is → is_null is ≡ false → Goes (finish is s)
return-step s [] c e h = ground arith
return-step s (i ∷ is) c e h = return-Goes s is i c e

step-Goes : (a : Action) (s : State) → Counted s → Allowed a s → Goes (step a s)
unfolding step
step-Goes (keeps f) s c h = keep-Goes s c f
step-Goes (drops f) s c h = drop-Goes s c f h
step-Goes (clears i) s c h =
    let (t, at, on) = active_timer (get_elem? s.timers i) h in clear-Goes s c i t at on
step-Goes (fires i) s c h =
    let (t, at, on) = active_timer (get_elem? s.timers i) h in fire-Goes s c i t at on
step-Goes (sets a) s c h = set-Goes s c a h
step-Goes returns s c h = return-step s s.running c refl h

Reach-Counted : {s : State} → Reach s → Counted s
Reach-Counted begin = record { refs = λ f. refl; known = tt }
Reach-Counted (later a r h e) =
    let (t, e', c) = step-Goes a _ (Reach-Counted r) h in
    subst Counted (some-injective _ _ (sym e' ∙ e)) c

-- While the script clears only timers that are active and drops only references that it has, and the
-- first allocation of setTimeout succeeds, every step goes on, in every order of the steps of script
-- and loop: no function is used or freed without a reference. Behind each step the references of a
-- function are just those of the script, of the timers to fire and of the timers that run.
pub Reach-Goes : {s : State} (a : Action) → Reach s → Allowed a s → Goes (step a s)
Reach-Goes a r h = step-Goes a _ (Reach-Counted r) h

module _ (s : State) (i : ℕ) (t : Timer) (at : get_elem? s.timers i ≡ some t) where
  stopped : State
  stopped = record s { timers = set s.timers i (record t { active = false }) }

  -- clearTimeout of a timer that has fired or was cleared frees a reference that is not the timer's:
  -- the function is then without one that the script, a timer to fire or one that runs still has, or
  -- had none left, and its memory is used after it was freed.
  pub clear_again :
      Counted s
      → t.active ≡ false
      → ((s.refs t.func ≡ 0) → step (clears i) s ≡ none)
        × ((0 < s.refs t.func)
            → (u : State) × (step (clears i) s ≡ some u)
              × (suc (u.refs t.func)
                  ≡ u.held t.func
                    + active_for t.func s.timers
                    + running_for t.func s.timers s.running))
  unfolding step js_clear_timeout timer_stop free_value stopped
  clear_again c off = (
    λ e. rw (at, e) refl,
    λ h. (
      freed t.func stopped,
      rw at (ap (λ o. state_of s (returned o)) (free_value-freed t.func stopped h)),
      omega (
        arith,
        h,
        c.refs t.func,
        update-less s.refs t.func t.func h,
        one-same t.func t.func refl,
      ),
    ),
  )
