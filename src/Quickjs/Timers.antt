-- ===== src/Quickjs/Timers.antt =====
-- quickjs/test_libuv.c: setTimeout and clearTimeout for scripts, and the timers' callback.
use cpp_custom.Prelude.{
  Bool, List, Option, [], ◌∷◌, ◌++◌, true, false, not, none, some, ℕ, zero, suc, ◌==◌,
  if◌then◌else◌, length, get_elem?, set,
}

-- A uv_timer_t with its UVTimer: the function, and whether the loop will fire it. Nothing frees it.
pub record Timer : Type 0 where
  pub func : ℕ
  pub active : Bool

-- `refs` counts the references to each function, as QuickJS does; `held` those that the script has
-- itself. A timer is its place in `timers`. `running` are the timers whose function is called.
pub record State : Type 0 where
  pub refs : ℕ → ℕ
  pub held : ℕ → ℕ
  pub timers : List Timer
  pub running : List ℕ

-- What a function of the module gives to the script. `undefined` is the use of memory that is not
-- allocated: a function with no reference, a wild handle, or a null pointer.
pub data Result : Type 0 where
  value : Option ℕ → State → Result
  exception : State → Result
  undefined : Result

abbrev pub update : (ℕ → ℕ) → ℕ → ℕ → ℕ → ℕ
update f i n x = if x == i then n else f x

-- JS_DupValue
unfoldable pub dup_value : ℕ → State → State
dup_value func s = record s { refs = update s.refs func (suc (s.refs func)) }

-- JS_FreeValue; `none` where the function has no reference left.
abbrev pub with_refs : ℕ → ℕ → State → Option State
with_refs func zero s = none
with_refs func (suc n) s = some (record s { refs = update s.refs func n })

unfoldable pub free_value : ℕ → State → Option State
free_value func s = with_refs func (s.refs func) s

-- What the calls of setTimeout give: whether its argument is a function and which, the delay, and
-- whether the two allocations and the new number succeed.
pub record Arguments : Type 0 where
  pub func : Option ℕ
  pub delay : Option ℕ
  pub handle_allocated : Bool
  pub number_made : Bool
  pub data_allocated : Bool

unfoldable pub add_timer : ℕ → State → State
add_timer func s = record (dup_value func s) {
  timers = s.timers ++ record { func = func; active = true } ∷ [];
}

-- The function is put behind a null pointer where the first allocation fails.
abbrev pub start : Arguments → ℕ → State → Result
start a func s =
    if not a.number_made
    then exception s
    else if not a.data_allocated
    then exception s
    else if a.handle_allocated
    then value (some (length s.timers)) (add_timer func s)
    else undefined

abbrev pub with_delay : Arguments → ℕ → Option ℕ → State → Result
with_delay a func none s = exception s
with_delay a func (some delay) s = start a func s

abbrev pub with_func : Arguments → Option ℕ → State → Result
with_func a none s = exception s
with_func a (some func) s = with_delay a func a.delay s

unfoldable pub js_set_timeout : Arguments → State → Result
js_set_timeout a s = with_func a a.func s

-- uv_timer_stop
unfoldable pub timer_stop : ℕ → Timer → State → State
timer_stop i t s = record s { timers = set s.timers i (record t { active = false }) }

abbrev pub returned : Option State → Result
returned none = undefined
returned (some s) = value none s

abbrev pub clear : ℕ → Option Timer → State → Result
clear i none s = undefined
clear i (some t) s = returned (free_value t.func (timer_stop i t s))

-- The handle, where the argument is a number.
unfoldable pub js_clear_timeout : Option ℕ → State → Result
js_clear_timeout none s = exception s
js_clear_timeout (some i) s = clear i (get_elem? s.timers i) s

-- time_job up to JS_Call; the loop has stopped the timer, which fires once.
abbrev pub call : ℕ → Timer → State → Option State
call i t s = some (record (timer_stop i t s) { running = i ∷ s.running })

abbrev pub fire_at : ℕ → Option Timer → State → Option State
fire_at i none s = none
fire_at i (some t) s = if t.active then call i t s else none

-- time_job behind JS_Call. What the function did meanwhile are steps of their own.
abbrev pub finish_at : Option Timer → State → Option State
finish_at none s = none
finish_at (some t) s = free_value t.func s

abbrev pub finish : List ℕ → State → Option State
finish [] s = none
finish (i ∷ is) s = finish_at (get_elem? s.timers i) (record s { running = is })
