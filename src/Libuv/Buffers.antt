-- ===== src/Libuv/Buffers.antt =====
-- libuv/tcp-echo-server.cpp: sequences of callbacks, and the buffers that they own.
use cpp_custom.Prelude.{
  Bytes, List, Option, [], ◌∷◌, ◌++◌, true, false, none, some, ℕ, suc, ◌≡◌, refl, sym, ap, ◌∙◌, inl,
  inr, arith, Option-cases, append-nil, append_assoc,
}
use cpp_custom.Libuv.EchoServer.{
  Request, Server, Event, free, take_request, on_new_connection, alloc, with_live, echo_read,
  echo_write, handle, received, nothing, failed, connected, read, wrote,
}

abbrev pub start_server : Server
start_server = record { live = []; next = 0; pending = []; reading = []; closed = []; written = [] }

abbrev pub and_then : (Server → Option Server) → Option Server → Option Server
and_then k none = none
and_then k (some s) = k s

unfoldable pub run_events : List Event → Server → Option Server
run_events [] s = some s
run_events (e ∷ es) s = and_then (run_events es) (handle e s)

abbrev pub buffers : List Request → List ℕ
buffers [] = []
buffers (r ∷ rs) = r.buffer ∷ buffers rs

-- What the clients sent, in order.
abbrev pub sent_by : Event → List (ℕ × Bytes)
sent_by (read client (received c cs)) = (client, c ∷ cs) ∷ []
sent_by _ = []

abbrev pub all_sent : List Event → List (ℕ × Bytes)
all_sent [] = []
all_sent (e ∷ es) = sent_by e ++ all_sent es

free-head : (i : ℕ) (bs : List ℕ) → free i (i ∷ bs) ≡ some bs
unfolding free
free-head i bs = ground arith

-- The buffers after a request is taken.
abbrev some_buffers : Option (List Request) → Option (List ℕ)
some_buffers none = none
some_buffers (some rs) = some (buffers rs)

free-take_request :
    (i : ℕ) (rs : List Request) → free i (buffers rs) ≡ some_buffers (take_request i rs)
unfolding free take_request
free-take_request i [] = refl
free-take_request i (r ∷ rs) = ground (arith, free-take_request i rs)

-- The buffers that are live are those of the requests.
abbrev Owned : Server → Type 0
Owned s = s.live ≡ buffers s.pending

handle-Owned :
    (e : Event) (s : Server)
    → Owned s
    → (s' : Server) × (handle e s ≡ some s') × Owned s' × (s'.written ≡ s.written ++ sent_by e)
unfolding handle echo_read on_new_connection
handle-Owned (connected client false accepted) s h = (s, refl, h, sym (append-nil s.written))
handle-Owned (connected client true true) s h =
    (record s { reading = client ∷ s.reading }, refl, h, sym (append-nil s.written))
handle-Owned (connected client true false) s h =
    (record s { closed = client ∷ s.closed }, refl, h, sym (append-nil s.written))
handle-Owned (read client (received c cs)) s h = (
  record s {
    live = s.next ∷ s.live;
    next = suc s.next;
    pending = record { buffer = s.next; client = client; text = c ∷ cs } ∷ s.pending;
    written = s.written ++ (client, c ∷ cs) ∷ [];
  },
  refl,
  ap (λ bs. s.next ∷ bs) h,
  refl,
)
handle-Owned (read client nothing) s h = (
  record s { next = suc s.next },
  ap (with_live (alloc s)) (free-head s.next s.live),
  h,
  sym (append-nil s.written),
)
handle-Owned (read client failed) s h = (
  record s { next = suc s.next; closed = client ∷ s.closed },
  ap (with_live (record (alloc s) { closed = client ∷ s.closed })) (free-head s.next s.live),
  h,
  sym (append-nil s.written),
)
handle-Owned (wrote i) s h = elim (Option-cases (take_request i s.pending)) [
  | inl e ↦ (s, ap (λ o. echo_write i o s) e, h, sym (append-nil s.written))
  | inr (rs, e) ↦ (
    record s { pending = rs; live = buffers rs },
    ap (λ o. echo_write i o s) e
        ∙ ap (with_live (record s { pending = rs }))
            (ap (free i) h ∙ free-take_request i s.pending ∙ ap some_buffers e),
    refl,
    sym (append-nil s.written),
  )
]

run_events-from :
    (es : List Event) (s : Server)
    → Owned s
    → (s' : Server) × (run_events es s ≡ some s')
      × Owned s'
      × (s'.written ≡ s.written ++ all_sent es)
unfolding run_events
run_events-from [] s h = (s, refl, h, sym (append-nil s.written))
run_events-from (e ∷ es) s h =
    let (s', step, h', sent) = handle-Owned e s h in
    let (s'', run, h'', more) = run_events-from es s' h' in
    (
      s'',
      ap (and_then (run_events es)) step ∙ run,
      h'',
      more ∙ ap (λ t. t ++ all_sent es) sent ∙ append_assoc s.written (sent_by e) (all_sent es),
    )

-- In every sequence of callbacks no buffer is freed twice, the buffers that are not freed are just
-- those of the write requests that are not done, so that none is lost, and uv_write was called with
-- all bytes that the clients sent, once for each read and in order.
pub run_events-Owned :
    (es : List Event)
    → (s : Server) × (run_events es start_server ≡ some s)
      × (s.live ≡ buffers s.pending)
      × (s.written ≡ all_sent es)
run_events-Owned es = run_events-from es start_server refl
