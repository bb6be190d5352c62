-- ===== src/Libuv/EchoServer.antt =====
-- libuv/tcp-echo-server.cpp: the callbacks of the echo server, with the buffers they own.
use cpp_custom.Prelude.{
  Bool, Bytes, List, Option, [], ◌∷◌, ◌++◌, true, false, none, some, ℕ, suc, ◌==◌, if◌then◌else◌,
}

-- A write request, with its buffer by number, its client and what it writes.
pub record Request : Type 0 where
  pub buffer : ℕ
  pub client : ℕ
  pub text : Bytes

-- The buffers that are not freed, the number of the next one, the requests that are not done, the
-- clients that read and those that were closed, and all calls of uv_write.
pub record Server : Type 0 where
  pub live : List ℕ
  pub next : ℕ
  pub pending : List Request
  pub reading : List ℕ
  pub closed : List ℕ
  pub written : List (ℕ × Bytes)

-- What a read gives: bytes, none, or an error or the end.
pub data Read : Type 0 where
  received : ℕ → Bytes → Read
  nothing : Read
  failed : Read

-- A callback of the loop: a connection, with whether its status and uv_accept are good, a read of a
-- client with its buffer just allocated, and the end of the write from a buffer.
pub data Event : Type 0 where
  connected : (client : ℕ) (good accepted : Bool) → Event
  read : (client : ℕ) → Read → Event
  wrote : (buffer : ℕ) → Event

abbrev pub prepend {ℓ} : {A : Type ℓ} → A → Option (List A) → Option (List A)
prepend a none = none
prepend a (some xs) = some (a ∷ xs)

-- `none` where the buffer is not live: it is freed twice.
unfoldable pub free : ℕ → List ℕ → Option (List ℕ)
free i [] = none
free i (b ∷ bs) = let later = prepend b (free i bs) in if b == i then some bs else later

-- The requests but the one with the buffer.
unfoldable pub take_request : ℕ → List Request → Option (List Request)
take_request i [] = none
take_request i (r ∷ rs) =
    let later = prepend r (take_request i rs) in if r.buffer == i then some rs else later

unfoldable pub on_new_connection : ℕ → Bool → Bool → Server → Server
on_new_connection client false accepted s = s
on_new_connection client true true s = record s { reading = client ∷ s.reading }
on_new_connection client true false s = record s { closed = client ∷ s.closed }

-- alloc_buffer
abbrev pub alloc : Server → Server
alloc s = record s { live = s.next ∷ s.live; next = suc s.next }

abbrev pub with_live : Server → Option (List ℕ) → Option Server
with_live s none = none
with_live s (some bs) = some (record s { live = bs })

abbrev pub free_buffer : ℕ → Server → Option Server
free_buffer i s = with_live s (free i s.live)

-- echo_read with the buffer `i`. The printf of the buffer, which has no zero behind what was read, is left
-- out.
unfoldable pub echo_read : ℕ → ℕ → Read → Server → Option Server
echo_read i client (received c cs) s =
    let r : Request = record { buffer = i; client = client; text = c ∷ cs } in
    some (record s { pending = r ∷ s.pending; written = s.written ++ (client, c ∷ cs) ∷ [] })
echo_read i client nothing s = free_buffer i s
echo_read i client failed s = free_buffer i (record s { closed = client ∷ s.closed })

-- echo_write of the request with the buffer, if there is one.
abbrev pub echo_write : ℕ → Option (List Request) → Server → Option Server
echo_write i none s = some s
echo_write i (some rs) s = free_buffer i (record s { pending = rs })

unfoldable pub handle : Event → Server → Option Server
handle (connected client good accepted) s = some (on_new_connection client good accepted s)
handle (read client r) s = echo_read s.next client r (alloc s)
handle (wrote i) s = echo_write i (take_request i s.pending) s
