-- ===== src/Pipe/Tests.antt =====
-- A new pipe, and three bytes sent through one.
use my_unix.Base.{ℕ, ◌≡◌, refl, List, [], ◌∷◌, length}
use my_unix.Pipe.{Pipe, new_pipe, copy_in, read_step, write_step}
use my_unix.Pipe.Ring.{Inv, contents, new_pipe_lem, window}
use my_unix.Pipe.Flow.{Flow, Reach, here, onward, writes, reads, Kept, Reach-Kept, delivered}

abbrev source : List ℕ
source = 104 ∷ 105 ∷ 10 ∷ []

abbrev start : Flow
start = record { pipe = new_pipe; rest = source; written = 0; received = [] }

-- The pipe after the three bytes went in, and after they came out again.
abbrev full_pipe : Pipe
full_pipe = record (copy_in source new_pipe) { avail = 3 }

abbrev drained : Pipe
drained = record full_pipe { read_pos = 3; avail = 0 }

abbrev finish : Flow
finish = record { pipe = drained; rest = []; written = 3; received = source }

run : Reach start finish
unfolding write_step read_step copy_in new_pipe
run = onward (writes start 3 full_pipe refl) (onward (reads _ 16 source drained refl) (here finish))

new_pipe-Inv : Inv new_pipe
new_pipe-Inv = new_pipe_lem.0

empty_at_end : contents finish.pipe ≡ []
unfolding window
empty_at_end = refl

Reach-Kept_example : Kept start finish
Reach-Kept_example = Reach-Kept new_pipe-Inv run

delivered_example : (finish.received ≡ source) × (finish.written ≡ length source)
delivered_example = delivered source finish run refl empty_at_end
