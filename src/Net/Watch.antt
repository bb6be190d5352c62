-- ===== src/Net/Watch.antt =====
-- What the kqueue server watches, reads and closes.
use cpp_custom.Prelude.{
  Bool, Bytes, List, [], ◌∷◌, true, false, ◌&&◌, some, ℕ, suc, ◌≡◌, refl, ◌==◌, if◌then◌else◌,
}
use cpp_custom.Net.Kqueue.{
  Filter, Change, Read, Kernel, Events, changes, Ended, read_loop, Event, update_events,
  handle_read, handle, loop_once, add, delete, bytes, end_of_file, would_block, go, exits,
}

abbrev pub same : Filter → Filter → Bool
same Filter.reading Filter.reading = true
same Filter.writing Filter.writing = true
same _ _ = false

-- Whether a filter of a socket is watched after some changes, and before them by `old`.
abbrev pub watched : (ℕ → Filter → Bool) → List Change → ℕ → Filter → Bool
watched old [] fd f = old fd f
watched old (add sd g ∷ cs) fd f =
    watched (λ x h. if x == sd && same h g then true else old x h) cs fd f
watched old (delete sd g ∷ cs) fd f =
    watched (λ x h. if x == sd && same h g then false else old x h) cs fd f

abbrev pub wants : Events → Filter → Bool
wants ev Filter.reading = ev.read
wants ev Filter.writing = ev.write

-- What read gives before it gives no bytes, with what write returned, which is positive.
abbrev pub chunks : List (Bytes × ℕ) → Read → List Read
chunks [] last = last ∷ []
chunks ((b, n) ∷ bs) last = bytes b (some (suc n)) ∷ chunks bs last

abbrev pub texts : List (Bytes × ℕ) → List Bytes
texts [] = []
texts ((b, n) ∷ bs) = b ∷ texts bs

abbrev pub ending : Ended → Read
ending Ended.at_end = end_of_file
ending Ended.blocked = would_block

read_loop-chunks :
    (bs : List (Bytes × ℕ)) (e : Ended) → read_loop (chunks bs (ending e)) ≡ go (e, texts bs)
unfolding read_loop
read_loop-chunks [] Ended.at_end = refl
read_loop-chunks [] Ended.blocked = refl
read_loop-chunks ((b, n) ∷ bs) e = rw (read_loop-chunks bs e) refl

module _ (K : Kernel) where
  -- Of a socket that gives some chunks and then ends, where `ended`, or blocks, with a positive result of
  -- each write, handleRead gives every chunk to write, once and in order. If the socket has ended, the
  -- kernel is left as close on that socket leaves it, and else as read left it. No part of a chunk is given to write again where write took less than the chunk.
  pub handle_read-chunks :
      (fd : ℕ) (w w' : K.World) (bs : List (Bytes × ℕ)) (ended : Bool)
      → K.reads fd w ≡ (chunks bs (if ended then end_of_file else would_block), w')
      → handle_read K fd w ≡ go ((if ended then K.close fd w' else w'), texts bs)
  unfolding handle_read
  handle_read-chunks fd w w' bs true h = rw (h, read_loop-chunks bs Ended.at_end) refl
  handle_read-chunks fd w w' bs false h = rw (h, read_loop-chunks bs Ended.blocked) refl

  -- If a list of events starts with one for input on a client's socket, whose connection is at its end,
  -- and one for output on it directly behind, the socket is closed first and updateEvents is then called
  -- for it: for a kernel that refuses changes for a socket that was closed, the server exits, with all
  -- its other clients.
  pub loop_once-closed :
      (lfd fd : ℕ) (w w' : K.World) (bs : List (Bytes × ℕ)) (evs : List Event)
      → ((sd : ℕ) (u : K.World) (f : Filter) (cs : List Change)
          → (K.change (add sd f ∷ cs) (K.close sd u)).0 ≡ false)
      → (fd == lfd) ≡ false
      → K.reads fd w ≡ (chunks bs end_of_file, w')
      → loop_once K lfd
          (record { fd = fd; filter = some Filter.reading }
            ∷ record { fd = fd; filter = some Filter.writing }
            ∷ evs)
          w
        ≡ exits
  unfolding loop_once handle update_events changes
  loop_once-closed lfd fd w w' bs evs refused other h =
      rw
        (
          other,
          handle_read-chunks fd w w' bs true h,
          refused fd w' Filter.reading (delete fd Filter.writing ∷ []),
        )
        refl
