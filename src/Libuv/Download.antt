-- ===== src/Libuv/Download.antt =====
-- libuv/uvwget.cpp: the callbacks between curl and the event loop.
use cpp_custom.Prelude.{
  Bool, Option, true, false, ◌&&◌, none, some, ℕ, zero, suc, ◌==◌, if◌then◌else◌,
}
use cpp_custom.Prelude.Int.{ℤ, pos, negsuc}

-- The actions that curl asks for, CURL_POLL_NONE to CURL_POLL_REMOVE.
pub data Action : Type 0 where
  nothing input output both remove : Action

pub data Direction : Type 0 where
  readable writable : Direction

-- What the loop polls each socket for, the sockets that curl has a context for, the number of
-- contexts that are closed, and the timer.
pub record Watch : Type 0 where
  pub polled : ℕ → Option Direction
  pub context : ℕ → Bool
  pub closed : ℕ
  pub timer : Option ℕ

abbrev pub update {ℓ} : {A : Type ℓ} → (ℕ → A) → ℕ → A → ℕ → A
update f i a x = if x == i then a else f x

-- start_timeout and the uv_timer_stop of curl_perform.
unfoldable pub start_timeout : ℤ → Watch → Watch
start_timeout (pos zero) w = record w { timer = some 1 }
start_timeout (pos (suc n)) w = record w { timer = some (suc n) }
start_timeout (negsuc n) w = record w { timer = some 1 }

-- create_curl_context with curl_multi_assign, where curl has no context for the socket.
abbrev pub with_context : ℕ → Watch → Watch
with_context s w = if w.context s then w else record w { context = update w.context s true }

-- uv_poll_start
abbrev pub poll_start : ℕ → Direction → Watch → Watch
poll_start s d w = record w { polled = update w.polled s (some d) }

-- uv_poll_stop, destroy_curl_context and curl_multi_assign.
abbrev pub drop_context : ℕ → Watch → Watch
drop_context s w =
    if w.context s
    then record w {
      polled = update w.polled s none;
      context = update w.context s false;
      closed = suc w.closed;
    }
    else w

-- `none` is abort.
unfoldable pub socket_callback : ℕ → Action → Watch → Option Watch
socket_callback s Action.input w = some (poll_start s Direction.readable (with_context s w))
socket_callback s Action.output w = some (poll_start s Direction.writable (with_context s w))
socket_callback s Action.remove w = some (drop_context s w)
socket_callback s Action.nothing w = none
socket_callback s Action.both w = none

-- The flags of curl_perform: an error, and the two directions.
pub record Flags : Type 0 where
  pub error : Bool
  pub input : Bool
  pub output : Bool

abbrev pub is_negative : ℤ → Bool
is_negative (pos n) = false
is_negative (negsuc n) = true

abbrev pub is_zero : ℤ → Bool
is_zero (pos n) = n == 0
is_zero (negsuc n) = false

unfoldable pub flags : ℤ → Bool → Bool → Flags
flags status can_read can_write = record {
  error = is_negative status;
  input = is_zero status && can_read;
  output = is_zero status && can_write;
}

-- curl_perform up to its call of curl, with the flags of that.
unfoldable pub curl_perform : ℤ → Bool → Bool → Watch → Watch × Flags
curl_perform status can_read can_write w =
    (record w { timer = none }, flags status can_read can_write)
