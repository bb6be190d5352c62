-- ===== src/Libuv/Transfers.antt =====
-- libuv/uvwget.cpp: the downloads, and what the two callbacks of the loop have curl do.
use cpp_custom.Prelude.{
  Bool, List, Option, [], ◌∷◌, ◌++◌, false, none, some, ℕ, zero, suc, ◌==◌, if◌then◌else◌,
}
use cpp_custom.Prelude.Int.{ℤ}
use cpp_custom.Libuv.Download.{Action, Watch, start_timeout, socket_callback, curl_perform}

-- A download by the number of its argument: those that curl has a handle for, those that were
-- printed as done, and the files that were opened. Nothing closes a file.
pub record Transfers : Type 0 where
  pub attached : List ℕ
  pub printed : List ℕ
  pub files : List ℕ

pub record Program : Type 0 where
  pub transfers : Transfers
  pub watch : Watch

-- A function of the program that curl calls.
pub data Call : Type 0 where
  socket : ℕ → Action → Call
  timer : ℤ → Call

-- A message of curl_multi_info_read: CURLMSG_DONE, with what curl_multi_remove_handle calls then, or
-- another one.
pub data Message : Type 0 where
  done : ℕ → List Call → Message
  other : Message

-- What curl_multi_socket_action calls, and the messages that it leaves.
pub record Work : Type 0 where
  pub calls : List Call
  pub messages : List Message

abbrev pub bind {ℓ κ} : {A : Type ℓ} {B : Type κ} → Option A → (A → Option B) → Option B
bind none next = none
bind (some a) next = next a

unfoldable pub called : Call → Watch → Option Watch
called (socket s a) w = socket_callback s a w
called (timer ms) w = some (start_timeout ms w)

unfoldable pub call_all : List Call → Watch → Option Watch
call_all [] w = some w
call_all (c ∷ cs) w = bind (called c w) (call_all cs)

-- The calls, and then the transfers; `none` is abort.
unfoldable pub then_set : List Call → Transfers → Program → Option Program
then_set cs t p = bind (call_all cs p.watch) λ w. some (record { transfers = t; watch = w })

abbrev pub attach : ℕ → Transfers → Transfers
attach num t = record t { attached = num ∷ t.attached; files = num ∷ t.files }

-- `none` is an fopen that fails; else there is what curl_multi_add_handle calls.
unfoldable pub add_download : Option (List Call) → ℕ → Program → Option Program
add_download none num p = some p
add_download (some cs) num p = then_set cs (attach num p.transfers) p

-- `while (argc-- > 1)`, where `argc - 1` is given.
unfoldable pub add_all : (ℕ → Option (List Call)) → ℕ → Program → Option Program
add_all opens zero p = some p
add_all opens (suc n) p = bind (add_download (opens (suc n)) (suc n) p) (add_all opens n)

unfoldable pub without : ℕ → List ℕ → List ℕ
without num [] = []
without num (h ∷ hs) = let rest = without num hs in if h == num then rest else h ∷ rest

-- printf, curl_multi_remove_handle and curl_easy_cleanup.
abbrev pub finish : ℕ → Transfers → Transfers
finish num t = record t { attached = without num t.attached; printed = t.printed ++ num ∷ [] }

unfoldable pub check_multi_info : List Message → Program → Option Program
check_multi_info [] p = some p
check_multi_info (done num cs ∷ ms) p =
    bind (then_set cs (finish num p.transfers) p) (check_multi_info ms)
check_multi_info (other ∷ ms) p = none

-- curl_multi_socket_action and check_multi_info.
unfoldable pub socket_action : Work → Program → Option Program
socket_action k p = bind (then_set k.calls p.transfers p) (check_multi_info k.messages)

-- What the loop finds: the timer, which fires once, or a polled socket.
pub data Event : Type 0 where
  timeout : Work → Event
  ready : (status : ℤ) (can_read can_write : Bool) → Work → Event

-- on_timeout, and curl_perform whole.
unfoldable pub handle : Event → Program → Option Program
handle (timeout k) p = socket_action k (record p { watch = record p.watch { timer = none } })
handle (ready status can_read can_write k) p =
    socket_action k (record p { watch = (curl_perform status can_read can_write p.watch).0 })

unfoldable pub run : List Event → Program → Option Program
run [] p = some p
run (e ∷ es) p = bind (handle e p) (run es)

abbrev pub start_program : Program
start_program = record {
  transfers = record { attached = []; printed = []; files = [] };
  watch = record { polled = λ s. none; context = λ s. false; closed = 0; timer = none };
}

-- `main`, which returns before the loop where there is no argument.
unfoldable pub main : (ℕ → Option (List Call)) → ℕ → List Event → Option Program
main opens zero es = some start_program
main opens (suc n) es = bind (add_all opens (suc n) start_program) (run es)
