-- ===== src/Quickjs/Balance.antt =====
-- What each step of scripts and the loop does to the references.
use cpp_custom.Prelude.{
  Bool, List, Option, [], ◌∷◌, ◌++◌, true, false, not, none, some, ℕ, ◌+◌, ◌-◌, ◌<◌, ◌≡◌, refl, sym,
  ap, subst, arith, if◌then◌else◌, length, get_elem?, set, length-append, length-set,
}
use cpp_custom.Quickjs.Timers.{
  Timer, State, update, dup_value, free_value, Arguments, add_timer, with_delay, with_func,
  js_set_timeout, timer_stop, js_clear_timeout, finish, value, exception, undefined,
}
use cpp_custom.Quickjs.Counted.{
  state_of, step, one, active_for, one_at, running_for, AllBelow, Counted, active_for-append,
  active_for-stop, running_for-stop, running_for-append, AllBelow-grow, func_at-get, get-below,
  freed, free_value-freed, one-same, update-more, update-less, keeps, drops, clears, fires, sets,
}

-- A step is taken, and what it leaves is counted.
abbrev pub Goes : Option State → Type 0
Goes o = (t : State) × (o ≡ some t) × Counted t

module _ (s : State) (c : Counted s) where
  pub keep-Goes : (f : ℕ) → Goes (step (keeps f) s)
  unfolding step dup_value
  keep-Goes f = (
    _,
    refl,
    record {
      refs = λ g. omega (arith, update-more s.refs f g, update-more s.held f g, c.refs g);
      known = c.known;
    },
  )

  pub drop-Goes : (f : ℕ) → 0 < s.held f → Goes (step (drops f) s)
  unfolding step
  drop-Goes f h =
      let positive : 0 < s.refs f = omega (arith, c.refs f, h) in
      let dropped : State = record s { held = update s.held f (s.held f - 1) } in
      (
        freed f dropped,
        free_value-freed f dropped positive,
        record {
          refs = λ g.
              omega (arith, update-less s.refs f g positive, update-less s.held f g h, c.refs g);
          known = c.known;
        },
      )

  positive-active :
      (i : ℕ) (t : Timer) → get_elem? s.timers i ≡ some t → t.active ≡ true → 0 < s.refs t.func
  positive-active i t at on =
      omega (
        arith,
        c.refs t.func,
        active_for-stop t.func s.timers i t at on,
        one-same t.func t.func refl,
      )

  pub clear-Goes :
      (i : ℕ) (t : Timer)
      → get_elem? s.timers i ≡ some t
      → t.active ≡ true
      → Goes (step (clears i) s)
  unfolding step js_clear_timeout timer_stop
  clear-Goes i t at on =
      let positive = positive-active i t at on in
      let stopped : State = record s { timers = set s.timers i (record t { active = false }) } in
      let frees : free_value t.func stopped ≡ some (freed t.func stopped) =
        free_value-freed t.func stopped positive in
      (
        freed t.func stopped,
        rw (at, frees) refl,
        record {
          refs = λ g. omega (
            arith,
            update-less s.refs t.func g positive,
            c.refs g,
            active_for-stop g s.timers i t at on,
            running_for-stop g s.timers i t s.running at,
          );
          known = subst (λ n. AllBelow n s.running) (sym (length-set s.timers i _)) c.known;
        },
      )

  pub fire-Goes :
      (i : ℕ) (t : Timer)
      → get_elem? s.timers i ≡ some t
      → t.active ≡ true
      → Goes (step (fires i) s)
  unfolding step timer_stop
  fire-Goes i t at on =
      let stopped : List Timer = set s.timers i (record t { active = false }) in
      (
        record s { timers = stopped; running = i ∷ s.running },
        rw (at, on) refl,
        record {
          refs = λ g. omega (
            arith,
            c.refs g,
            active_for-stop g s.timers i t at on,
            running_for-stop g s.timers i t (i ∷ s.running) at,
            ap (one_at g) (func_at-get s.timers i t at).0,
          );
          known =
              subst (λ n. AllBelow n (i ∷ s.running)) (sym (length-set s.timers i _))
                ((func_at-get s.timers i t at).1, c.known);
        },
      )

  add-Counted : (f : ℕ) → Counted (add_timer f s)
  unfolding add_timer dup_value
  add-Counted f =
      let new : List Timer = record { func = f; active = true } ∷ [] in
      record {
        refs = λ g. omega (
          arith,
          update-more s.refs f g,
          c.refs g,
          active_for-append g s.timers new,
          running_for-append g s.timers new s.running c.known,
        );
        known =
            AllBelow-grow (length s.timers) (length (s.timers ++ new)) s.running
              (omega (arith, length-append s.timers new)) c.known;
      }

  pub set-Goes : (a : Arguments) → a.handle_allocated ≡ true → Goes (step (sets a) s)
  unfolding step js_set_timeout
  set-Goes a h = by_func a.func
    where
      by_start :
          (made allocated : Bool) (f : ℕ)
          → Goes (
              state_of s (
                if not made
                then exception s
                else if not allocated
                then exception s
                else if a.handle_allocated
                then value (some (length s.timers)) (add_timer f s)
                else undefined))
      by_start false allocated f = (s, refl, c)
      by_start true false f = (s, refl, c)
      by_start true true f = (add_timer f s, rw h refl, add-Counted f)

      by_delay : (f : ℕ) (delay : Option ℕ) → Goes (state_of s (with_delay a f delay s))
      by_delay f none = (s, refl, c)
      by_delay f (some delay) = by_start a.number_made a.data_allocated f

      by_func : (func : Option ℕ) → Goes (state_of s (with_func a func s))
      by_func none = (s, refl, c)
      by_func (some f) = by_delay f a.delay

-- The function of the timer that fired last returns.
pub return-Goes :
    (s : State) (is : List ℕ) (i : ℕ) → Counted s → s.running ≡ i ∷ is → Goes (finish (i ∷ is) s)
return-Goes s is i c e =
    let known = subst (AllBelow (length s.timers)) e c.known in
    let (t, at) = get-below s.timers i known.0 in
    let back : State = record s { running = is } in
    let same : (g : ℕ)
        → s.refs g ≡ s.held g + active_for g s.timers + (one g t.func + running_for g s.timers is) =
      λ g. omega (
        arith,
        c.refs g,
        ap (running_for g s.timers) e,
        ap (one_at g) (func_at-get s.timers i t at).0,
      ) in
    let positive : 0 < s.refs t.func = omega (arith, same t.func, one-same t.func t.func refl) in
    (
      freed t.func back,
      rw at (free_value-freed t.func back positive),
      record {
        refs = λ g. omega (arith, update-less s.refs t.func g positive, same g);
        known = known.1;
      },
    )
