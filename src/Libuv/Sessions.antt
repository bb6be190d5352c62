-- ===== src/Libuv/Sessions.antt =====
-- Three arguments, of which the file of one does not open: the theorem at a concrete input.
use cpp_custom.Prelude.{
  List, Option, [], ◌∷◌, true, false, none, some, ℕ, ◌≡◌, refl, ◌==◌, if◌then◌else◌,
}
use cpp_custom.Prelude.Int.{pos}
use cpp_custom.Libuv.Download.{Action}
use cpp_custom.Libuv.Transfers.{Program, Call, Event, main, done, socket, timer, timeout, ready}
use cpp_custom.Libuv.Downloads.{Completes, main-Completes}

abbrev opens : ℕ → Option (List Call)
opens num = if num == 2 then none else some (timer (pos 0) ∷ [])

abbrev events : List Event
events =
    timeout (record {
      calls = socket 7 Action.output ∷ socket 8 Action.input ∷ timer (pos 9) ∷ [];
      messages = [];
    })
    ∷ ready (pos 0) false true (record {
      calls = socket 7 Action.input ∷ [];
      messages = done 3 (socket 8 Action.remove ∷ []) ∷ [];
    })
    ∷ []

main-Completes_example : (p : Program) × (main opens 3 events ≡ some p) × Completes opens 3 events p
main-Completes_example =
    main-Completes opens 2 events ((refl, tt), (tt, ((refl, tt), tt)))
      (((refl, (refl, (refl, tt))), tt), (((refl, tt), ((refl, tt), tt)), tt))
