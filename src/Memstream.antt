-- ===== src/Memstream.antt =====
-- src/memstream.c: streams on memory. A FILE* and a caller's buffer are numbers; a stream has the
-- bytes of its temporary file and its position.
pub mod Sync
pub mod Session
pub mod Close
pub mod Tests
use libsolcompat.Common.{
  ℕ, zero, suc, ◌+◌, ◌-◌, min, Bool, true, false, ◌&&◌, ◌||◌, Option, none, some, List, [], ◌∷◌,
  ◌++◌, length, take, drop, replicate, set, ltb, ◌==◌, if◌then◌else◌,
}

-- `position` is what `ftell` answers, none for a negative number.
pub record Stream : Type 0 where
  pub fd : ℕ
  pub content : List ℕ
  pub position : Option ℕ

-- `ptr` with `sizeloc`, `fixed_buf` with `fixed_size`, or neither for a stream that only reads.
pub data Target : Type 0 where
  reads : Target
  fixed : ℕ → ℕ → Target
  growing : ℕ → Target

pub record Entry : Type 0 where
  pub fp : ℕ
  pub target : Target

-- A slot of `bufendtab` is a buffer and an offset in it, none for NULL. `buffers` are the callers' fixed buffers, `outputs` what each `*ptr` points to, none for NULL,
-- and `sizes` each `*sizeloc`.
pub record State : Type 0 where
  pub memstream_list : List Entry
  pub streams : ℕ → Stream
  pub bufendtab : ℕ → Option (ℕ × ℕ)
  pub buffers : ℕ → List ℕ
  pub outputs : ℕ → Option (List ℕ)
  pub sizes : ℕ → ℕ

module _ {ℓ} {A : Type ℓ} where
  abbrev pub put : (ℕ → A) → ℕ → A → ℕ → A
  put f k v j = if j == k then v else f j

pub nfile : ℕ
nfile = 20

pub memstream_remove : ℕ → List Entry → Option Entry × List Entry
memstream_remove fp [] = (none, [])
memstream_remove fp (e ∷ es) =
    let (found, rest) = memstream_remove fp es in
    if e.fp == fp then (some e, es) else (found, e ∷ rest)

pub memstream_find : ℕ → List Entry → Option Entry
memstream_find fp [] = none
memstream_find fp (e ∷ es) =
    let found = memstream_find fp es in if e.fp == fp then some e else found

-- `fread` to the beginning of a block.
abbrev pub fread_into : List ℕ → List ℕ → List ℕ
fread_into bytes block = bytes ++ drop (length bytes) block

-- The bytes that are copied, with a zero byte behind them where there is room.
pub copy_back : List ℕ → ℕ → ℕ → List ℕ → List ℕ
copy_back content byte_count fixed_size buf =
    let copy_bytes = min byte_count fixed_size in
    let read = fread_into (take copy_bytes content) buf in
    if ltb copy_bytes fixed_size then set read copy_bytes 0 else read

-- The new block, whose bytes are all `fill` before they are read.
pub new_buffer : List ℕ → ℕ → ℕ → List ℕ
new_buffer content byte_count fill =
    set (fread_into (take byte_count content) (replicate (byte_count + 1) fill)) byte_count 0

-- `malloc` answers none, or a block. The result none is a write through a null pointer.
pub sync_at : Target → ℕ → List ℕ → Option ℕ → State → Option State
sync_at (fixed buf size) byte_count content malloc st = some (record st {
  buffers = put st.buffers buf (copy_back content byte_count size (st.buffers buf));
})
sync_at (growing ptr) byte_count content none st = some st
sync_at (growing ptr) byte_count content (some fill) st = some (record st {
  outputs = put st.outputs ptr (some (new_buffer content byte_count fill));
  sizes = put st.sizes ptr byte_count;
})
sync_at reads byte_count content none st = some st
sync_at reads byte_count content (some fill) st = none

-- From the answer of `ftell`; the position is the same before and after.
abbrev pub sync_from : Option ℕ → ℕ → Target → Option ℕ → State → Option State
sync_from none fp target malloc st = some st
sync_from (some byte_count) fp target malloc st =
    sync_at target byte_count (st.streams fp).content malloc st

pub memstream_sync : ℕ → Target → Option ℕ → State → Option State
memstream_sync fp target malloc st = sync_from (st.streams fp).position fp target malloc st

abbrev pub make_entry : ℕ → Target → State → State
make_entry fp target st = record st {
  memstream_list = record { fp = fp; target = target } ∷ st.memstream_list;
}

abbrev pub tmpfile_stream : ℕ → Stream
tmpfile_stream fd = record { fd = fd; content = []; position = some 0 }

abbrev pub closed_stream : Stream
closed_stream = record { fd = 0; content = []; position = none }

abbrev pub real_fclose : ℕ → State → State
real_fclose fp st = record st { streams = put st.streams fp closed_stream }

pub data Mode : Type 0 where
  mode_r : Mode
  mode_w : Mode
  mode_a : Mode
  other_mode : Mode

-- What the calls that open answer: the stream and its descriptor, and whether `malloc` gives an
-- entry.
pub record Answers : Type 0 where
  pub opened : Option (ℕ × ℕ)
  pub entry_made : Bool

abbrev open_reads : ℕ → ℕ → Bool → ℕ → ℕ → State → Option ℕ × State
open_reads fp fd made buf size st =
    let opened = record st {
      streams = put st.streams fp (record { fd = fd; content = st.buffers buf; position = none });
      bufendtab = if ltb fd nfile then put st.bufendtab fd (some (buf, size)) else st.bufendtab;
    } in
    if made then (some fp, make_entry fp reads opened) else (none, real_fclose fp opened)

abbrev open_writes : ℕ → ℕ → Bool → Bool → ℕ → ℕ → State → Option ℕ × State
open_writes fp fd made clears buf size st =
    let opened = record st { streams = put st.streams fp (tmpfile_stream fd) } in
    let cleared =
      if clears
      then record opened {
        buffers = put st.buffers buf (fread_into (replicate size 0) (st.buffers buf));
      }
      else opened in
    if made
    then (some fp, make_entry fp (fixed buf size) cleared)
    else (none, real_fclose fp opened)

-- `fmemopen` of a buffer; the stream, or none for NULL. A mode that is NULL counts as another mode.
pub fmemopen : Answers → Option ℕ → ℕ → Mode → State → Option ℕ × State
fmemopen a none size mode st = (none, st)
fmemopen a (some buf) zero mode st = (none, st)
fmemopen a (some buf) (suc size) mode st = elim (a.opened) [
  | none ↦ (none, st)
  | some o ↦ elim mode [
    | mode_r ↦ open_reads (o.0) (o.1) (a.entry_made) buf (suc size) st
    | mode_w ↦ open_writes (o.0) (o.1) (a.entry_made) true buf (suc size) st
    | mode_a ↦ open_writes (o.0) (o.1) (a.entry_made) false buf (suc size) st
    | other_mode ↦ (none, st)
  ]
]

pub open_memstream : Answers → ℕ → State → Option ℕ × State
open_memstream a ptr st = elim (a.opened) [
  | none ↦ (none, st)
  | some o ↦
      let opened = record st {
        streams = put st.streams (o.0) (tmpfile_stream (o.1));
        outputs = put st.outputs ptr none;
        sizes = put st.sizes ptr 0;
      } in
      if a.entry_made
      then (some (o.0), make_entry (o.0) (growing ptr) opened)
      else (none, real_fclose (o.0) opened)
]

-- A stream that reads gives its slot of `_bufendtab` back.
pub clean_slot : ℕ → State → State
clean_slot fp st =
    let stream_fd = (st.streams fp).fd in
    record st {
      bufendtab = if ltb stream_fd nfile then put st.bufendtab stream_fd none else st.bufendtab;
    }

pub close_entry : ℕ → Target → Option ℕ → State → Option State
close_entry fp reads malloc st = some (clean_slot fp st)
close_entry fp (fixed buf size) malloc st = memstream_sync fp (fixed buf size) malloc st
close_entry fp (growing ptr) malloc st = memstream_sync fp (growing ptr) malloc st

abbrev pub then_close : ℕ → Option State → Option State
then_close fp none = none
then_close fp (some st) = some (real_fclose fp st)

abbrev pub close_found : ℕ → Option ℕ → Option Entry × List Entry → State → Option State
close_found fp malloc (none, es) st = some (real_fclose fp st)
close_found fp malloc (some e, es) st =
    then_close fp (close_entry fp e.target malloc (record st { memstream_list = es }))

pub fclose : ℕ → Option ℕ → State → Option State
fclose fp malloc st = close_found fp malloc (memstream_remove fp st.memstream_list) st

abbrev pub flush_found : ℕ → Option ℕ → Option Entry → State → Option State
flush_found fp malloc none st = some st
flush_found fp malloc (some e) st = memstream_sync fp e.target malloc st

-- `fflush` of one stream; of NULL it is libc's.
pub fflush : ℕ → Option ℕ → State → Option State
fflush fp malloc st = flush_found fp malloc (memstream_find fp st.memstream_list) st

abbrev write_at : Option ℕ → List ℕ → Stream → Stream
write_at none bytes s = s
write_at (some p) bytes s = record s {
  content =
      take p s.content
      ++ (replicate (p - length s.content) 0 ++ (bytes ++ drop (p + length bytes) s.content));
  position = some (p + length bytes);
}

-- `fwrite` of libc.
pub fwrite : ℕ → List ℕ → State → State
fwrite fp bytes st = record st {
  streams = put st.streams fp (write_at (st.streams fp).position bytes (st.streams fp));
}
