-- ===== src/Net/Held.antt =====
-- The epoll server from its start on, over a kernel whose sockets block.
use cpp_custom.Prelude.{
  Bytes, List, Option, [], ◌∷◌, false, ℕ, zero, suc, ◌<◌, ◌≡◌, refl, ap, subst, ◌∙◌, ◌⊎◌, inl, inr,
  length,
}
use cpp_custom.Net.Epoll.{
  Read, Event, Kernel, Go, ◌>>=◌, epoll_ctl_add, hang_up, serve, serve_all, run, prepared, start,
  go, waits, listener, bytes, nothing, waiting,
}
use cpp_custom.Net.Drain.{Chunks, Drains, with_fd, left, read_loop-Drains, more}
use cpp_custom.Net.Blocking.{
  Blocks, Returns, Returns-bind, Kept, Ended, setnonblocking-AllBlock, epoll_ctl_add-AllBlock,
  Talks, serve-Talks, serve-AllBlock,
}

Returns-go : {A : Type 0} (m : Go A) (P : A → Type 0) (a : A) → Returns m P → m ≡ go a → P a
Returns-go m P a h e = subst (λ g. Returns g P) e h

module _ (K : Kernel) (B : Blocks K) where
  open B use {AllBlock, has_ended, socket_lem, bind_lem, listen_lem, create_lem, wait_lem}

  serve_all-AllBlock :
      (fuel : ℕ) (sock : Option ℕ) (evs : List Event) (w : K.World)
      → AllBlock w
      → Returns (serve_all K fuel sock evs w) (Kept K B)
  unfolding serve_all
  serve_all-AllBlock fuel sock [] w h = h
  serve_all-AllBlock fuel sock (ev ∷ evs) w h =
      Returns-bind (serve K fuel sock ev w) _ (Kept K B) (Kept K B)
        (serve-AllBlock K B fuel sock ev w h)
        λ (w', out) kept.
          Returns-bind (serve_all K fuel sock evs w') _ (Kept K B) (Kept K B)
            (serve_all-AllBlock fuel sock evs w' kept) λ (w'', outs) e. e

  run-AllBlock :
      (fuel turns : ℕ) (sock : Option ℕ) (w : K.World)
      → AllBlock w
      → Returns (run K fuel turns sock w) (Kept K B)
  unfolding run
  run-AllBlock fuel zero sock w h = h
  run-AllBlock fuel (suc turns) sock w h =
      Returns-bind (serve_all K fuel sock (K.wait w).0 (K.wait w).1) _ (Kept K B) (Kept K B)
        (serve_all-AllBlock fuel sock (K.wait w).0 (K.wait w).1 (wait_lem w h))
        λ (w', out) kept.
          Returns-bind (run K fuel turns sock w') _ (Kept K B) (Kept K B)
            (run-AllBlock fuel turns sock w' kept) λ (w'', outs) e. e

  Started : Option ℕ × K.World → Type 0
  Started (sock, w) = AllBlock w

  prepared-AllBlock : (p : Option ℕ × K.World) → AllBlock p.1 → Returns (prepared K p) Started
  unfolding Started
  prepared-AllBlock (sock, w) h =
      Returns-bind (epoll_ctl_add K sock listener _) _ AllBlock Started
        (epoll_ctl_add-AllBlock K B sock listener _ (
          create_lem _
            (listen_lem sock _ (setnonblocking-AllBlock K B sock _ (bind_lem sock w h)))))
        λ u e. e

  start-AllBlock : (w : K.World) → AllBlock w → Returns (start K w) Started
  unfolding start
  start-AllBlock w h = prepared-AllBlock (K.socket w) (socket_lem w h)

  -- Serving a readable client that has not hung up returns only when the connection has ended or
  -- failed, after any number of turns and any events before this one.
  serve-has_ended :
      (fuel turns : ℕ) (w w1 w2 w3 w4 : K.World) (sock : Option ℕ)
      (out outs sent : List (ℕ × Bytes)) (evs : List Event) (ev : Event)
      → AllBlock w
      → start K w ≡ go (sock, w1)
      → run K fuel turns sock w1 ≡ go (w2, out)
      → serve_all K fuel sock evs w2 ≡ go (w3, outs)
      → Talks K B sock ev
      → serve K fuel sock ev w3 ≡ go (w4, sent)
      → has_ended ev.fd w4
  unfolding Started
  serve-has_ended fuel turns w w1 w2 w3 w4 sock out outs sent evs ev h st ran before talks e =
      let h1 = Returns-go (start K w) Started (sock, w1) (start-AllBlock w h) st in
      let h2 = Returns-go _ (Kept K B) (w2, out) (run-AllBlock fuel turns sock w1 h1) ran in
      let h3 = Returns-go _ (Kept K B) (w3, outs) (serve_all-AllBlock fuel sock evs w2 h2) before in
      (Returns-go _ (Ended K B ev.fd) (w4, sent) (serve-Talks K B fuel sock ev w3 talks h3) e).1

  never_bytes :
      (fd : ℕ) {w w' : K.World} {bs : List Bytes} {b : Bytes} → Drains K fd w bs (bytes b) w' → ⊥
  never_bytes fd (more r a d) = never_bytes fd d

  serve-left :
      (fuel : ℕ) (sock : Option ℕ) (ev : Event) (w w' : K.World) (bs : List Bytes) (e : Read)
      → Talks K B sock ev
      → length bs < fuel
      → Chunks bs
      → Drains K ev.fd w bs e w'
      → serve K fuel sock ev w ≡ left K ev.fd e w' (with_fd K ev.fd bs)
  unfolding serve hang_up
  serve-left fuel sock ev w w' bs e (at, on, up) lt h d =
      rw (at, on, up)
        (ap (λ r. r >>= hang_up K false ev.fd) (read_loop-Drains K ev.fd fuel lt h d) ∙ left-kept e)
    where
      left-kept :
          (e : Read)
          → left K ev.fd e w' (with_fd K ev.fd bs) >>= hang_up K false ev.fd
            ≡ left K ev.fd e w' (with_fd K ev.fd bs)
      left-kept nothing = refl
      left-kept waiting = refl
      left-kept (bytes b) = refl

  -- Over a kernel whose sockets block: after any number of turns since the server's start and any
  -- events before this one, let a client that has not hung up be readable, with chunks of less than
  -- 16 bytes and without zero to read. With fuel for one more call of read than there are chunks, the
  -- server waits in read, and serves none of the events behind, unless the connection has ended or
  -- failed when the chunks are read.
  pub serve_all-waits :
      (fuel turns : ℕ) (w w1 w2 w3 w4 : K.World) (sock : Option ℕ) (out outs : List (ℕ × Bytes))
      (evs rest : List Event) (ev : Event) (bs : List Bytes) (e : Read)
      → AllBlock w
      → start K w ≡ go (sock, w1)
      → run K fuel turns sock w1 ≡ go (w2, out)
      → serve_all K fuel sock evs w2 ≡ go (w3, outs)
      → Talks K B sock ev
      → length bs < fuel
      → Chunks bs
      → Drains K ev.fd w3 bs e w4
      → (serve_all K fuel sock (ev ∷ rest) w3 ≡ waits) ⊎ has_ended ev.fd w4
  unfolding serve_all
  serve_all-waits fuel turns w w1 w2 w3 w4 sock out outs evs rest ev bs e h st ran before talks lt g
        d =
      by_end e d (serve-left fuel sock ev w3 w4 bs e talks lt g d)
    where
      by_end :
          (e : Read)
          → Drains K ev.fd w3 bs e w4
          → serve K fuel sock ev w3 ≡ left K ev.fd e w4 (with_fd K ev.fd bs)
          → (serve_all K fuel sock (ev ∷ rest) w3 ≡ waits) ⊎ has_ended ev.fd w4
      by_end nothing d is = inr (
          serve-has_ended fuel turns w w1 w2 w3 w4 sock out outs (with_fd K ev.fd bs) evs ev h st
            ran before talks is)
      by_end waiting d is = inl (rw is refl)
      by_end (bytes b) d is = absurd (never_bytes ev.fd d)
