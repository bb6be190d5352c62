-- ===== src/Libuv/Polling.antt =====
-- What the loop polls while curl downloads.
use cpp_custom.Prelude.{
  Bool, List, Option, [], ◌∷◌, ◌++◌, true, false, ◌&&◌, none, some, ℕ, ◌≡◌, refl, sym, ap, ◌∙◌, inl,
  inr, arith, ◌==◌, if◌then◌else◌, ==_iff, Bool-cases,
}
use cpp_custom.Libuv.Download.{
  Action, Direction, Watch, with_context, poll_start, drop_context, socket_callback,
}

abbrev pub start_watch : Watch
start_watch = record { polled = λ s. none; context = λ s. false; closed = 0; timer = none }

abbrev pub and_then : (Watch → Option Watch) → Option Watch → Option Watch
and_then next none = none
and_then next (some w) = next w

unfoldable pub run_callbacks : List (ℕ × Action) → Watch → Option Watch
run_callbacks [] w = some w
run_callbacks ((s, a) ∷ cs) w = and_then (run_callbacks cs) (socket_callback s a w)

abbrev pub known : Action → Bool
known Action.nothing = false
known Action.both = false
known _ = true

abbrev pub all_known : List (ℕ × Action) → Bool
all_known [] = true
all_known ((s, a) ∷ cs) = known a && all_known cs

abbrev pub direction : Action → Option Direction
direction Action.input = some Direction.readable
direction Action.output = some Direction.writable
direction _ = none

-- The last action asked for a socket, behind `old`.
abbrev pub last_for : ℕ → Option Direction → List (ℕ × Action) → Option Direction
last_for s old [] = old
last_for s old ((t, a) ∷ cs) = last_for s (if s == t then direction a else old) cs

abbrev pub is_some : Option Direction → Bool
is_some none = false
is_some (some d) = true

-- The loop polls just the sockets that have a context.
abbrev pub Agrees : Watch → Type 0
Agrees w = (s : ℕ) → w.context s ≡ is_some (w.polled s)

at_same : (w : Watch) (s t : ℕ) → (t == s) ≡ true → w.context t ≡ w.context s
at_same w s t e = ap w.context ((==_iff t s).0 e)

not_polled : (o : Option Direction) → is_some o ≡ false → o ≡ none
not_polled none h = refl
not_polled (some d) h = ground arith

start-Agrees :
    (s : ℕ) (d : Direction) (w : Watch) → Agrees w → Agrees (poll_start s d (with_context s w))
start-Agrees s d w g t = elim (Bool-cases (w.context s)) [
  | inl e ↦ elim (Bool-cases (t == s)) [
    | inl f ↦ rw (e, f) (at_same w s t f ∙ e)
    | inr f ↦ rw (e, f) (g t)
  ]
  | inr e ↦ elim (Bool-cases (t == s)) [ inl f ↦ rw (e, f) refl | inr f ↦ rw (e, f) (g t) ]
]

start-polled :
    (s : ℕ) (d : Direction) (w : Watch) (t : ℕ)
    → (poll_start s d (with_context s w)).polled t ≡ (if t == s then some d else w.polled t)
start-polled s d w t = ground arith

drop-Agrees : (s : ℕ) (w : Watch) → Agrees w → Agrees (drop_context s w)
drop-Agrees s w g t = elim (Bool-cases (w.context s)) [
  | inl e ↦ elim (Bool-cases (t == s)) [ inl f ↦ rw (e, f) refl | inr f ↦ rw (e, f) (g t) ]
  | inr e ↦ rw e (g t)
]

drop-polled :
    (s : ℕ) (w : Watch) (t : ℕ)
    → Agrees w
    → (drop_context s w).polled t ≡ (if t == s then none else w.polled t)
drop-polled s w t g = elim (Bool-cases (w.context s)) [
  | inl e ↦ rw e refl
  | inr e ↦ elim (Bool-cases (t == s)) [
    | inl f ↦ rw (e, f) (not_polled (w.polled t) (sym (g t) ∙ at_same w s t f ∙ e))
    | inr f ↦ rw (e, f) refl
  ]
]

pub socket_callback-step :
    (s : ℕ) (a : Action) (w : Watch)
    → known a ≡ true
    → Agrees w
    → (w' : Watch) × (socket_callback s a w ≡ some w')
      × Agrees w'
      × ((t : ℕ) → w'.polled t ≡ (if t == s then direction a else w.polled t))
unfolding socket_callback
socket_callback-step s Action.nothing w h g = ground arith
socket_callback-step s Action.both w h g = ground arith
socket_callback-step s Action.input w h g =
    let d = Direction.readable in
    (poll_start s d (with_context s w), refl, start-Agrees s d w g, start-polled s d w)
socket_callback-step s Action.output w h g =
    let d = Direction.writable in
    (poll_start s d (with_context s w), refl, start-Agrees s d w g, start-polled s d w)
socket_callback-step s Action.remove w h g =
    (drop_context s w, refl, drop-Agrees s w g, λ t. drop-polled s w t g)

run_callbacks-from :
    (cs : List (ℕ × Action)) (w : Watch)
    → all_known cs ≡ true
    → Agrees w
    → (w' : Watch) × (run_callbacks cs w ≡ some w')
      × ((t : ℕ)
          → (w'.polled t ≡ last_for t (w.polled t) cs) × (w'.context t ≡ is_some (w'.polled t)))
unfolding run_callbacks
run_callbacks-from [] w h g = (w, refl, λ t. (refl, g t))
run_callbacks-from ((s, a) ∷ cs) w h g =
    let (w', e, g', p) = socket_callback-step s a w (ground (arith, h)) g in
    let (w'', run, q) = run_callbacks-from cs w' (ground (arith, h)) g' in
    (
      w'',
      ap (and_then (run_callbacks cs)) e ∙ run,
      λ t. ((q t).0 ∙ ap (λ o. last_for t o cs) (p t), (q t).1),
    )

both-from :
    (cs ds : List (ℕ × Action)) (s : ℕ) (w : Watch)
    → all_known cs ≡ true
    → Agrees w
    → run_callbacks (cs ++ (s, Action.both) ∷ ds) w ≡ none
unfolding run_callbacks socket_callback
both-from [] ds s w h g = refl
both-from ((t, a) ∷ cs) ds s w h g =
    let (w', e, g', p) = socket_callback-step t a w (ground (arith, h)) g in
    ap (and_then (run_callbacks (cs ++ (s, Action.both) ∷ ds))) e
    ∙ both-from cs ds s w' (ground (arith, h)) g'

-- In every sequence of calls of socket_callback that asks for input, output or removal only, none
-- aborts; a socket is then polled for what was last asked for it, and not at all after a removal or
-- without a call; and curl has a context for just the sockets that are polled.
pub run_callbacks-last :
    (cs : List (ℕ × Action))
    → all_known cs ≡ true
    → (w : Watch) × (run_callbacks cs start_watch ≡ some w)
      × ((t : ℕ) → (w.polled t ≡ last_for t none cs) × (w.context t ≡ is_some (w.polled t)))
run_callbacks-last cs h = run_callbacks-from cs start_watch h λ s. refl

-- A call for both directions aborts the program, wherever it stands behind calls that do not.
pub run_callbacks-both :
    (cs ds : List (ℕ × Action)) (s : ℕ)
    → all_known cs ≡ true
    → run_callbacks (cs ++ (s, Action.both) ∷ ds) start_watch ≡ none
run_callbacks-both cs ds s h = both-from cs ds s start_watch h λ t. refl
