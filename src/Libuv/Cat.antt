-- ===== src/Libuv/Cat.antt =====
-- libuv/fscat.cpp: a file is copied to the output by callbacks that start each other.
use cpp_custom.Prelude.{
  Bytes, Option, [], ◌++◌, none, some, ℕ, zero, suc, length, take, drop, replicate,
}

-- What the callbacks share: the bytes of the file that are not read yet, `iov.len`, `buffer`, which iov
-- points to, and the output.
pub record Copy : Type 0 where
  pub rest : Bytes
  pub len : ℕ
  pub buffer : Bytes
  pub output : Bytes

-- What libuv answers: how many of the bytes a read or a write takes, `none` for an error.
pub record Loop : Type 0 where
  pub reads : ℕ → Bytes → Option ℕ
  pub writes : Bytes → Option ℕ

-- How the chain of callbacks stops.
pub data Stop : Type 0 where
  open_error closed read_error write_error out_of_fuel : Stop

module _ (L : Loop) where
  -- uv_fs_read up to its callback: the bytes read go to the front of the buffer.
  abbrev pub fill : ℕ → Copy → Copy
  fill n s = record s { rest = drop n s.rest; buffer = take n s.rest ++ drop n s.buffer }

  abbrev pub set_len : ℕ → Copy → Copy
  set_len n s = record s { len = n }

  -- What uv_fs_write is given: the bytes of the buffer before `iov.len`.
  abbrev pub given : Copy → Bytes
  given s = take s.len s.buffer

  abbrev pub put : ℕ → Copy → Copy
  put n s = record s { output = s.output ++ take n (given s) }

  -- on_write; `again` is the read that it starts.
  abbrev pub on_write : (Copy → Stop × Copy) → Option ℕ → Copy → Stop × Copy
  on_write again none s = (Stop.write_error, s)
  on_write again (some n) s = again (put n s)

  -- on_read, with the write that it starts.
  abbrev pub on_read : (Copy → Stop × Copy) → Option ℕ → Copy → Stop × Copy
  on_read again none s = (Stop.read_error, s)
  on_read again (some zero) s = (Stop.closed, s)
  on_read again (some (suc n)) s =
      let s' = set_len (suc n) (fill (suc n) s) in on_write again (L.writes (given s')) s'

  unfoldable pub run_reads : ℕ → Copy → Stop × Copy
  run_reads zero s = (Stop.out_of_fuel, s)
  run_reads (suc f) s = on_read (run_reads f) (L.reads s.len s.rest) s

  -- on_open, with the buffer as it is at the start: `none` where the file does not open.
  unfoldable pub on_open : Option Bytes → Stop × Copy
  on_open none =
      (Stop.open_error, record { rest = []; len = 0; buffer = replicate 1024 0; output = [] })
  on_open (some file) =
      run_reads (suc (length file))
        (record { rest = file; len = 1024; buffer = replicate 1024 0; output = [] })
