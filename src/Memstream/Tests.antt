-- ===== src/Memstream/Tests.antt =====
-- src/memstream.c: two streams on concrete memory.
use libsolcompat.Common.{ℕ, ◌≡◌, refl, Option, none, some, List, [], ◌∷◌, replicate, arith}
use libsolcompat.Memstream.{
  State, Stream, reads, closed_stream, mode_w, mode_a, fmemopen, open_memstream, fflush,
  memstream_find, memstream_sync, sync_at, fclose, memstream_remove, close_entry, copy_back, fwrite,
}
use libsolcompat.Memstream.Session.{Action, write, flush}
use libsolcompat.Memstream.Close.{opens, session, Outputs, open_memstream-fclose, fmemopen-fclose}

-- Another stream is open; every buffer is "xxxxxx".
abbrev start : State
start = record {
  memstream_list = record { fp = 9; target = reads } ∷ [];
  streams = λ fp. closed_stream;
  bufendtab = λ fd. none;
  buffers = λ buf. replicate 6 b'x';
  outputs = λ ptr. none;
  sizes = λ ptr. 0;
}

-- "ab", a flush without memory, "c", a flush.
abbrev actions : List Action
actions = write (b'a' ∷ b'b' ∷ []) ∷ flush none ∷ write (b'c' ∷ []) ∷ flush (some 1) ∷ []

open_memstream-fclose_example :
    (last : State) × (session 3 7 actions (open_memstream (opens 3 5) 0 start).1 ≡ some last)
    × Outputs last 0 (b'a' ∷ b'b' ∷ b'c' ∷ []) (record { fp = 9; target = reads } ∷ [])
open_memstream-fclose_example = open_memstream-fclose 3 5 0 7 actions start

fmemopen-fclose_example :
    (last : State) × (session 3 7 actions (fmemopen (opens 3 5) (some 0) 4 mode_w start).1
      ≡ some last)
    × (last.buffers 0 ≡ b'a' ∷ b'b' ∷ b'c' ∷ 0 ∷ b'x' ∷ b'x' ∷ [])
    × (last.memstream_list ≡ record { fp = 9; target = reads } ∷ [])
fmemopen-fclose_example = fmemopen-fclose 3 5 0 4 7 actions start (omega arith)

abbrev at_end : Stream
at_end = record { fd = 4; content = []; position = some 0 }

-- A flush of a stream that has been read to its end has no place for the new block.
flush_of_reads : fflush 9 (some 0) (record start { streams = λ fp. at_end }) ≡ none
unfolding fflush memstream_find memstream_sync sync_at
flush_of_reads = refl

abbrev first_of : Option State → Option (List ℕ)
first_of none = none
first_of (some st) = some (st.buffers 0)

-- Append mode writes over the beginning of the buffer.
append_overwrites :
    first_of (session 3 7 (write (b'a' ∷ []) ∷ []) (fmemopen (opens 3 5) (some 0) 6 mode_a start).1)
    ≡ some (b'a' ∷ 0 ∷ b'x' ∷ b'x' ∷ b'x' ∷ b'x' ∷ [])
unfolding fclose memstream_remove close_entry memstream_sync sync_at copy_back fwrite fmemopen
append_overwrites = refl
