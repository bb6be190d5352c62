-- ===== src/Libuv/Downloads.antt =====
-- libuv/uvwget.cpp from its arguments on.
use cpp_custom.Prelude.{
  List, Option, [], ◌∷◌, ◌++◌, none, some, ℕ, zero, suc, ◌≡◌, refl, sym, ap, ◌∙◌,
}
use cpp_custom.Libuv.Polling.{last_for, is_some, Agrees}
use cpp_custom.Libuv.Transfers.{
  Program, Call, call_all, then_set, attach, add_download, add_all, Event, run, start_program, main,
}
use cpp_custom.Libuv.Finished.{
  KnownCalls, sockets_of, AllKnown, all_calls, all_finished, without_all, last-append, Watched,
  call_all-Watched,
}
use cpp_custom.Libuv.Completed.{bind-some, run-Runs}

abbrev pub opened_by : Option (List Call) → ℕ → List ℕ → List ℕ
opened_by none num fs = fs
opened_by (some cs) num fs = num ∷ fs

abbrev pub calls_by : Option (List Call) → List Call
calls_by none = []
calls_by (some cs) = cs

-- The downloads whose files open, the first argument first, in front of `fs`.
abbrev pub opened : (ℕ → Option (List Call)) → ℕ → List ℕ → List ℕ
opened opens zero fs = fs
opened opens (suc n) fs = opened opens n (opened_by (opens (suc n)) (suc n) fs)

abbrev pub calls_of_adds : (ℕ → Option (List Call)) → ℕ → List Call
calls_of_adds opens zero = []
calls_of_adds opens (suc n) = calls_by (opens (suc n)) ++ calls_of_adds opens n

abbrev pub KnownAdds : (ℕ → Option (List Call)) → ℕ → Type 0
KnownAdds opens zero = Unit {0}
KnownAdds opens (suc n) = KnownCalls (calls_by (opens (suc n))) × KnownAdds opens n

-- What a part of the arguments changes; `extend` puts the downloads in front.
record Added (cs : List Call) (extend : List ℕ → List ℕ) (p q : Program) : Type 0 where
  agrees : Agrees q.watch
  last : (t : ℕ) → q.watch.polled t ≡ last_for t (p.watch.polled t) (sockets_of cs)
  attached : q.transfers.attached ≡ extend p.transfers.attached
  printed : q.transfers.printed ≡ p.transfers.printed
  files : q.transfers.files ≡ extend p.transfers.files

add_download-Added :
    (o : Option (List Call)) (num : ℕ) (p : Program)
    → KnownCalls (calls_by o)
    → Agrees p.watch
    → (q : Program) × (add_download o num p ≡ some q) × Added (calls_by o) (opened_by o num) p q
unfolding add_download then_set Watched
add_download-Added none num p h g = (
  p,
  refl,
  record { agrees = g; last = λ t. refl; attached = refl; printed = refl; files = refl },
)
add_download-Added (some cs) num p h g =
    let (w, ran, (g', l)) = call_all-Watched cs p.watch h g in
    (
      record { transfers = attach num p.transfers; watch = w },
      bind-some (call_all cs p.watch) _ w ran,
      record { agrees = g'; last = l; attached = refl; printed = refl; files = refl },
    )

add_all-Added :
    (opens : ℕ → Option (List Call)) (n : ℕ) (p : Program)
    → KnownAdds opens n
    → Agrees p.watch
    → (q : Program) × (add_all opens n p ≡ some q)
      × Added (calls_of_adds opens n) (opened opens n) p q
unfolding add_all
add_all-Added opens zero p h g = (
  p,
  refl,
  record { agrees = g; last = λ t. refl; attached = refl; printed = refl; files = refl },
)
add_all-Added opens (suc n) p h g =
    let (q, e, a) = add_download-Added (opens (suc n)) (suc n) p h.0 g in
    let (r, f, b) = add_all-Added opens n q h.1 a.agrees in
    let first = calls_by (opens (suc n)) in
    (
      r,
      bind-some (add_download (opens (suc n)) (suc n) p) (add_all opens n) q e ∙ f,
      record {
        agrees = b.agrees;
        last = λ t.
            b.last t
            ∙ ap (λ o. last_for t o (sockets_of (calls_of_adds opens n))) (a.last t)
            ∙ sym (last-append t (p.watch.polled t) first (calls_of_adds opens n));
        attached = b.attached ∙ ap (opened opens n) a.attached;
        printed = b.printed ∙ a.printed;
        files = b.files ∙ ap (opened opens n) a.files;
      },
    )

-- What the program has done with all arguments and events.
pub record Completes (opens : ℕ → Option (List Call)) (n : ℕ) (es : List Event) (p : Program)
    : Type 0 where
  pub polled :
      (t : ℕ)
      → p.watch.polled t ≡ last_for t none (sockets_of (calls_of_adds opens n ++ all_calls es))
  pub context : (t : ℕ) → p.watch.context t ≡ is_some (p.watch.polled t)
  pub attached : p.transfers.attached ≡ without_all (all_finished es) (opened opens n [])
  pub printed : p.transfers.printed ≡ all_finished es
  pub files : p.transfers.files ≡ opened opens n []

-- With at least one argument, if curl asks for input, output or removal only and every message tells a finished download, the
-- program never aborts, whatever the arguments and the events are. Then a socket is polled for what was
-- last asked for it, and curl has contexts for just the sockets polled; the finished downloads are
-- printed in order, and those whose files opened and that have not finished are still with curl. Every
-- file that was opened is still open.
pub main-Completes :
    (opens : ℕ → Option (List Call)) (n : ℕ) (es : List Event)
    → KnownAdds opens (suc n)
    → AllKnown es
    → (p : Program) × (main opens (suc n) es ≡ some p) × Completes opens (suc n) es p
unfolding main
main-Completes opens m es h g =
    let n : ℕ = suc m in
    let (q, e, a) = add_all-Added opens n start_program h λ t. refl in
    let (r, f, b) = run-Runs es q g a.agrees in
    (
      r,
      bind-some (add_all opens n start_program) (run es) q e ∙ f,
      record {
        polled = λ t.
            b.last t
            ∙ ap (λ o. last_for t o (sockets_of (all_calls es))) (a.last t)
            ∙ sym (last-append t none (calls_of_adds opens n) (all_calls es));
        context = b.agrees;
        attached = b.attached ∙ ap (without_all (all_finished es)) a.attached;
        printed = b.printed ∙ ap (λ l. l ++ all_finished es) a.printed;
        files = b.files ∙ a.files;
      },
    )
