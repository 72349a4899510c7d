-- ===== src/Pipe.antt =====
-- The pipes of main.c: a ring of 65536 bytes between one reading and one writing file. Each pass of the
-- loops of pipe_read_fn and pipe_write_fn holds the pipe's lock and is one step here; what a call
-- does when a pass can neither return nor go on is to wait for the other side.
pub mod Ring
pub mod Flow
mod Tests
use my_unix.Base.{
  ℕ, zero, suc, ◌+◌, ◌-◌, ◌%◌, ◌≤◌, ◌<◌, ◌≡◌, Bool, true, false, not, ◌&&◌, if◌then◌else◌, ◌==◌,
  ltb, List, [], ◌∷◌, ◌++◌, length, take, drop, Option, none, some, min,
}
use my_unix.Base.Errno.{ebadf, epipe, eintr, enomem}
use my_unix.Base.Int.{ℤ, pos, neg}
use my_unix.Base.Maps.{update}
use my_unix.Base.Word.{add64, sub64}

-- `PIPE_BUF_SIZE`
abbrev pub pipe_buf_size : ℕ
pipe_buf_size = 65536

-- `pipe_t`, less its lock and the two wait queues
pub record Pipe : Type 0 where
  pub buf : ℕ → ℕ
  pub read_pos : ℕ
  pub write_pos : ℕ
  pub avail : ℕ
  pub write_closed : Bool
  pub read_closed : Bool
  pub refcount : ℕ

-- The copying loops: `n` bytes out of the ring, the bytes of `src` into it.
unfoldable pub copy_out : ℕ → Pipe → List ℕ × Pipe
copy_out zero p = ([], p)
copy_out (suc n) p =
    let (bytes, p') = copy_out n (record p { read_pos = add64 p.read_pos 1 }) in
    (p.buf (p.read_pos % pipe_buf_size) ∷ bytes, p')

unfoldable pub copy_in : List ℕ → Pipe → Pipe
copy_in [] p = p
copy_in (b ∷ src) p = copy_in src (record p {
  buf = update p.buf (p.write_pos % pipe_buf_size) b;
  write_pos = add64 p.write_pos 1;
})

-- What one pass of the loop of `pipe_read_fn` comes to: it returns bytes and wakes a writer, or returns 0,
-- or waits for a writer, or fails.
pub data ReadStep : Type 0 where
  got_bytes : List ℕ → Pipe → ReadStep
  end_of_file : ReadStep
  wait_for_data : ReadStep
  read_error : ℤ → ReadStep

unfoldable pub read_avail : ℕ → Pipe → ReadStep
unfolding copy_out
read_avail n p =
    let (bytes, p') = copy_out n p in got_bytes bytes (record p' { avail = p.avail - n })

unfoldable pub read_step : Option Pipe → ℕ → ReadStep
unfolding read_avail
read_step none len = read_error (neg ebadf)
read_step (some p) len =
    if ltb 0 p.avail
    then read_avail (min len p.avail) p
    else if p.write_closed
    then end_of_file
    else wait_for_data

-- `pipe_write_fn` before its loop: an error, with SIGPIPE for the writer if no reader is left.
pub data WriteStart : Type 0 where
  may_write : Pipe → WriteStart
  write_error : ℤ → Bool → WriteStart

pub write_start : Option Pipe → WriteStart
write_start none = write_error (neg ebadf) false
write_start (some p) = if p.read_closed then write_error (neg epipe) true else may_write p

-- One pass of its loop with `rest` still to be written: all is written, or some bytes went in and a reader
-- is woken, or the writer waits for room.
pub data WriteStep : Type 0 where
  all_written : WriteStep
  wrote : ℕ → Pipe → WriteStep
  wait_for_room : WriteStep

unfoldable pub write_step : Pipe → List ℕ → WriteStep
unfolding copy_in
write_step p [] = all_written
write_step p (b ∷ rest) =
    let space = pipe_buf_size - p.avail in
    let n = min (length (b ∷ rest)) space in
    let p' = copy_in (take n (b ∷ rest)) p in
    if ltb 0 space then wrote n (record p' { avail = p.avail + n }) else wait_for_room

-- After a wait: a killed process gives up, a writer with what it has written so far.
pub read_woken : Bool → Option ℤ
read_woken killed = if killed then some (neg eintr) else none

pub write_woken : Bool → ℕ → Option ℤ
write_woken killed written =
    if killed then some (if written == 0 then neg eintr else pos written) else none

-- Closing an end: a NULL pipe is dereferenced; the last end frees the pipe.
pub data CloseStep : Type 0 where
  null_fault : CloseStep
  still_open : Pipe → CloseStep
  freed : CloseStep

drop_ref : Pipe → CloseStep
drop_ref p = if p.refcount == 1 then freed else still_open (record p { refcount = p.refcount - 1 })

pub close_read : Option Pipe → CloseStep
unfolding drop_ref
close_read none = null_fault
close_read (some p) = drop_ref (record p { read_closed = true })

pub close_write : Option Pipe → CloseStep
unfolding drop_ref
close_write none = null_fault
close_write (some p) = drop_ref (record p { write_closed = true })

-- A pipe as `pipe_create` sets it up, on memory that `kzalloc` cleared.
unfoldable pub new_pipe : Pipe
new_pipe = record {
  buf = λ _. 0;
  read_pos = 0;
  write_pos = 0;
  avail = 0;
  write_closed = false;
  read_closed = false;
  refcount = 2;
}

-- `pipe_create`, by whether `kzalloc` had memory for the pipe, the reading and the writing file
pub pipe_create : Bool → Bool → Bool → ℤ × Option Pipe
pipe_create has_pipe has_read_end has_write_end =
    if has_pipe && (has_read_end && has_write_end)
    then (pos 0, some new_pipe)
    else (neg enomem, none)
