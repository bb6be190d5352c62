-- ===== src/Libuv/Completed.antt =====
-- The downloads: each step of the program, and the program from its start.
use cpp_custom.Prelude.{
  List, Option, [], ◌∷◌, ◌++◌, none, some, ℕ, ◌≡◌, refl, sym, ap, ◌∙◌, append-nil,
}
use cpp_custom.Libuv.Download.{curl_perform}
use cpp_custom.Libuv.Polling.{Agrees}
use cpp_custom.Libuv.Transfers.{
  Transfers, Program, Call, Message, Work, bind, call_all, then_set, finish, check_multi_info,
  socket_action, Event, handle, run, done, other, timeout, ready,
}
use cpp_custom.Libuv.Finished.{
  KnownCalls, calls_in, finished_in, AllDone, work_of, AllKnown, calls_at, all_calls, all_finished,
  without_all, Ran, Ran-trans, Watched, call_all-Watched,
}

-- A step that succeeds, with what it changes.
abbrev pub Runs : List Call → List ℕ → Program → Option Program → Type 0
Runs cs ds p o = (q : Program) × (o ≡ some q) × Ran cs ds p q

pub bind-some :
    {A B : Type 0} (o : Option A) (k : A → Option B) (a : A) → o ≡ some a → bind o k ≡ k a
bind-some o k a e = ap (λ m. bind m k) e

-- The transfers after a step, with what it finishes.
record Ends (ds : List ℕ) (t t' : Transfers) : Type 0 where
  attached : t'.attached ≡ without_all ds t.attached
  printed : t'.printed ≡ t.printed ++ ds
  files : t'.files ≡ t.files

then_set-Runs :
    (cs : List Call) (ds : List ℕ) (t : Transfers) (p : Program)
    → KnownCalls cs
    → Agrees p.watch
    → Ends ds p.transfers t
    → Runs cs ds p (then_set cs t p)
unfolding then_set Watched
then_set-Runs cs ds t p h g e =
    let (w, ran, (g', q)) = call_all-Watched cs p.watch h g in
    (
      record { transfers = t; watch = w },
      bind-some (call_all cs p.watch) _ w ran,
      record { agrees = g'; last = q; attached = e.attached; printed = e.printed; files = e.files },
    )

no_end : (t : Transfers) → Ends [] t t
no_end t = record { attached = refl; printed = sym (append-nil t.printed); files = refl }

Runs-bind :
    (cs cs' : List Call) (ds ds' : List ℕ) (p : Program) (o : Option Program)
    (next : Program → Option Program)
    → Runs cs ds p o
    → ((q : Program) → Agrees q.watch → Runs cs' ds' q (next q))
    → Runs (cs ++ cs') (ds ++ ds') p (bind o next)
Runs-bind cs cs' ds ds' p o next (q, e, a) rest =
    let (r, f, b) = rest q a.agrees in
    (r, bind-some o next q e ∙ f, Ran-trans cs cs' ds ds' p q r a b)

check_multi_info-Runs :
    (ms : List Message) (p : Program)
    → AllDone ms
    → Agrees p.watch
    → Runs (calls_in ms) (finished_in ms) p (check_multi_info ms p)
unfolding check_multi_info
check_multi_info-Runs [] p h g = (
  p,
  refl,
  record {
    agrees = g;
    last = λ t. refl;
    attached = refl;
    printed = sym (append-nil p.transfers.printed);
    files = refl;
  },
)
check_multi_info-Runs (done num cs ∷ ms) p h g =
    Runs-bind cs (calls_in ms) (num ∷ []) (finished_in ms) p _ (check_multi_info ms)
      (then_set-Runs cs (num ∷ []) (finish num p.transfers) p h.0 g
        (record { attached = refl; printed = refl; files = refl }))
      λ q a. check_multi_info-Runs ms q h.1 a
check_multi_info-Runs (other ∷ ms) p h g = absurd h

socket_action-Runs :
    (k : Work) (p : Program)
    → KnownCalls k.calls
    → AllDone k.messages
    → Agrees p.watch
    → Runs (k.calls ++ calls_in k.messages) (finished_in k.messages) p (socket_action k p)
unfolding socket_action
socket_action-Runs k p h d g =
    Runs-bind k.calls (calls_in k.messages) [] (finished_in k.messages) p _
      (check_multi_info k.messages)
      (then_set-Runs k.calls [] p.transfers p h g (no_end p.transfers))
      λ q a. check_multi_info-Runs k.messages q d a

-- Stopping the timer leaves what is polled.
handle-Runs :
    (e : Event) (p : Program)
    → KnownCalls (work_of e).calls
    → AllDone (work_of e).messages
    → Agrees p.watch
    → Runs (calls_at e) (finished_in (work_of e).messages) p (handle e p)
unfolding handle curl_perform
handle-Runs (timeout k) p h d g =
    let (q, e, r) =
      socket_action-Runs k (record p { watch = record p.watch { timer = none } }) h d g in
    (
      q,
      e,
      record {
        agrees = r.agrees;
        last = r.last;
        attached = r.attached;
        printed = r.printed;
        files = r.files;
      },
    )
handle-Runs (ready status can_read can_write k) p h d g =
    let (q, e, r) =
      socket_action-Runs k (record p { watch = record p.watch { timer = none } }) h d g in
    (
      q,
      e,
      record {
        agrees = r.agrees;
        last = r.last;
        attached = r.attached;
        printed = r.printed;
        files = r.files;
      },
    )

pub run-Runs :
    (es : List Event) (p : Program)
    → AllKnown es
    → Agrees p.watch
    → Runs (all_calls es) (all_finished es) p (run es p)
unfolding run
run-Runs [] p h g = (
  p,
  refl,
  record {
    agrees = g;
    last = λ t. refl;
    attached = refl;
    printed = sym (append-nil p.transfers.printed);
    files = refl;
  },
)
run-Runs (e ∷ es) p h g =
    Runs-bind (calls_at e) (all_calls es) (finished_in (work_of e).messages) (all_finished es) p _
      (run es) (handle-Runs e p h.0.0 h.0.1 g) λ q a. run-Runs es q h.1 a
