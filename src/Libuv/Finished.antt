-- ===== src/Libuv/Finished.antt =====
-- The downloads from the start of the program on.
use cpp_custom.Prelude.{
  Bool, List, Option, [], ◌∷◌, ◌++◌, true, some, ℕ, zero, suc, ◌≡◌, refl, sym, ap, ◌∙◌,
  append_assoc,
}
use cpp_custom.Prelude.Int.{ℤ, pos, negsuc}
use cpp_custom.Libuv.Download.{Action, Direction, Watch, start_timeout}
use cpp_custom.Libuv.Polling.{known, last_for, is_some, Agrees, socket_callback-step}
use cpp_custom.Libuv.Transfers.{
  Program, Call, Message, Work, bind, called, call_all, without, Event, done, other, socket, timer,
  timeout, ready,
}

abbrev pub known_call : Call → Bool
known_call (socket s a) = known a
known_call (timer ms) = true

-- curl asks for input, output or removal only.
abbrev pub KnownCalls : List Call → Type 0
KnownCalls [] = Unit {0}
KnownCalls (c ∷ cs) = (known_call c ≡ true) × KnownCalls cs

abbrev pub sockets_of : List Call → List (ℕ × Action)
sockets_of [] = []
sockets_of (socket s a ∷ cs) = (s, a) ∷ sockets_of cs
sockets_of (timer ms ∷ cs) = sockets_of cs

abbrev pub calls_in : List Message → List Call
calls_in [] = []
calls_in (done num cs ∷ ms) = cs ++ calls_in ms
calls_in (other ∷ ms) = calls_in ms

abbrev pub finished_in : List Message → List ℕ
finished_in [] = []
finished_in (done num cs ∷ ms) = num ∷ finished_in ms
finished_in (other ∷ ms) = finished_in ms

-- Every message is CURLMSG_DONE.
abbrev pub AllDone : List Message → Type 0
AllDone [] = Unit {0}
AllDone (done num cs ∷ ms) = KnownCalls cs × AllDone ms
AllDone (other ∷ ms) = ⊥

abbrev pub work_of : Event → Work
work_of (timeout k) = k
work_of (ready status can_read can_write k) = k

abbrev pub AllKnown : List Event → Type 0
AllKnown [] = Unit {0}
AllKnown (e ∷ es) = (KnownCalls (work_of e).calls × AllDone (work_of e).messages) × AllKnown es

abbrev pub calls_at : Event → List Call
calls_at e = (work_of e).calls ++ calls_in (work_of e).messages

abbrev pub all_calls : List Event → List Call
all_calls [] = []
all_calls (e ∷ es) = calls_at e ++ all_calls es

abbrev pub all_finished : List Event → List ℕ
all_finished [] = []
all_finished (e ∷ es) = finished_in (work_of e).messages ++ all_finished es

abbrev pub without_all : List ℕ → List ℕ → List ℕ
without_all [] hs = hs
without_all (d ∷ ds) hs = without_all ds (without d hs)

-- What calls and finished downloads change in a program.
pub record Ran (cs : List Call) (ds : List ℕ) (p q : Program) : Type 0 where
  pub agrees : Agrees q.watch
  pub last : (t : ℕ) → q.watch.polled t ≡ last_for t (p.watch.polled t) (sockets_of cs)
  pub attached : q.transfers.attached ≡ without_all ds p.transfers.attached
  pub printed : q.transfers.printed ≡ p.transfers.printed ++ ds
  pub files : q.transfers.files ≡ p.transfers.files

sockets_of-append : (cs ds : List Call) → sockets_of (cs ++ ds) ≡ sockets_of cs ++ sockets_of ds
sockets_of-append [] ds = refl
sockets_of-append (socket s a ∷ cs) ds = ap (λ l. (s, a) ∷ l) (sockets_of-append cs ds)
sockets_of-append (timer ms ∷ cs) ds = sockets_of-append cs ds

last_for-append :
    (t : ℕ) (cs ds : List (ℕ × Action)) (old : Option Direction)
    → last_for t old (cs ++ ds) ≡ last_for t (last_for t old cs) ds
last_for-append t [] ds old = refl
last_for-append t ((s, a) ∷ cs) ds old = last_for-append t cs ds _

without_all-append :
    (ds es hs : List ℕ) → without_all (ds ++ es) hs ≡ without_all es (without_all ds hs)
without_all-append [] es hs = refl
without_all-append (d ∷ ds) es hs = without_all-append ds es (without d hs)

pub last-append :
    (t : ℕ) (old : Option Direction) (cs ds : List Call)
    → last_for t old (sockets_of (cs ++ ds))
      ≡ last_for t (last_for t old (sockets_of cs)) (sockets_of ds)
last-append t old cs ds =
    ap (last_for t old) (sockets_of-append cs ds)
    ∙ last_for-append t (sockets_of cs) (sockets_of ds) old

pub Ran-trans :
    (cs cs' : List Call) (ds ds' : List ℕ) (p q r : Program)
    → Ran cs ds p q
    → Ran cs' ds' q r
    → Ran (cs ++ cs') (ds ++ ds') p r
Ran-trans cs cs' ds ds' p q r a b = record {
  agrees = b.agrees;
  last = λ t.
      b.last t
      ∙ ap (λ o. last_for t o (sockets_of cs')) (a.last t)
      ∙ sym (last-append t (p.watch.polled t) cs cs');
  attached =
      b.attached
      ∙ ap (without_all ds') a.attached
      ∙ sym (without_all-append ds ds' p.transfers.attached);
  printed = b.printed ∙ ap (λ l. l ++ ds') a.printed ∙ append_assoc p.transfers.printed ds ds';
  files = b.files ∙ a.files;
}

start_timeout-watch :
    (ms : ℤ) (w : Watch)
    → ((start_timeout ms w).polled ≡ w.polled) × ((start_timeout ms w).context ≡ w.context)
unfolding start_timeout
start_timeout-watch (pos zero) w = (refl, refl)
start_timeout-watch (pos (suc n)) w = (refl, refl)
start_timeout-watch (negsuc n) w = (refl, refl)

-- The watch after calls.
unfoldable pub Watched : List Call → Watch → Watch → Type 0
Watched cs w w' = Agrees w' × ((t : ℕ) → w'.polled t ≡ last_for t (w.polled t) (sockets_of cs))

pub call_all-Watched :
    (cs : List Call) (w : Watch)
    → KnownCalls cs
    → Agrees w
    → (w' : Watch) × (call_all cs w ≡ some w') × Watched cs w w'
unfolding call_all called Watched
call_all-Watched [] w h g = (w, refl, (g, λ t. refl))
call_all-Watched (socket s a ∷ cs) w h g =
    let (u, e, g', p) = socket_callback-step s a w h.0 g in
    let (w', run_rest, (g'', q)) = call_all-Watched cs u h.1 g' in
    (
      w',
      ap (λ o. bind o (call_all cs)) e ∙ run_rest,
      (g'', λ t. q t ∙ ap (λ o. last_for t o (sockets_of cs)) (p t)),
    )
call_all-Watched (timer ms ∷ cs) w h g =
    let (same, kept) = start_timeout-watch ms w in
    let g' : Agrees (start_timeout ms w) =
      λ t. ap (λ f. f t) kept ∙ g t ∙ ap (λ f. is_some (f t)) (sym same) in
    let (w', run_rest, (g'', q)) = call_all-Watched cs (start_timeout ms w) h.1 g' in
    (w', run_rest, (g'', λ t. q t ∙ ap (λ f. last_for t (f t) (sockets_of cs)) same))
