-- ===== src/Fs/Pipe.antt =====
-- os/src/fs/pipe.rs: the ring buffer of a pipe, and the rounds of the loops of `read` and `write`.
-- A round runs under the buffer's lock; between rounds the task may be suspended, and then others
-- make rounds of their own. A write end is named by a number, and `alive` says which of the write
-- ends still have an owner.
pub mod Ring
pub mod Rounds
pub mod Stream
pub mod Tests
use bitos.Base.{
  ℕ, zero, suc, ◌+◌, ◌-◌, ◌%◌, ◌<◌, Bool, true, false, not, Option, none, some, List, [], ◌∷◌, ◌==◌,
  ltb, leb, if◌then◌else◌, Outcome, returned, panicked, ◌>>=◌, ◌>>◌, assert, unwrap, get_elem?, set,
  replicate, length,
}

abbrev pub ring_buffer_size : ℕ
ring_buffer_size = 32

pub data RingBufferStatus : Type 0 where
  full : RingBufferStatus
  empty : RingBufferStatus
  normal : RingBufferStatus

pub record PipeRingBuffer : Type 0 where
  pub arr : List ℕ
  pub head : ℕ
  pub tail : ℕ
  pub status : RingBufferStatus
  pub write_end : Option ℕ

unfoldable pub new : PipeRingBuffer
new = record { arr = replicate 32 0; head = 0; tail = 0; status = empty; write_end = none }

unfoldable pub set_write_end : PipeRingBuffer → ℕ → PipeRingBuffer
set_write_end r pipe = record r { write_end = some pipe }

unfoldable pub read_byte : PipeRingBuffer → Outcome (ℕ × PipeRingBuffer)
read_byte r = do
  c ← unwrap (get_elem? r.arr r.head)
  let head = (r.head + 1) % ring_buffer_size
  returned (c, record r { head = head; status = if head == r.tail then empty else normal })

unfoldable pub write_byte : PipeRingBuffer → ℕ → Outcome (Bool × PipeRingBuffer)
write_byte r byte = do
  assert (ltb r.tail (length r.arr))
  let tail = (r.tail + 1) % ring_buffer_size
  returned (
    not (r.head == tail),
    record r {
      arr = set r.arr r.tail byte;
      tail = tail;
      status = if r.head == tail then full else normal;
    },
  )

unfoldable pub available_read : PipeRingBuffer → ℕ
available_read r = elim r.status [
  | empty ↦ 0
  | _ ↦ if ltb r.head r.tail then r.tail - r.head else r.tail + ring_buffer_size - r.head
]

unfoldable pub available_write : PipeRingBuffer → ℕ
available_write r = elim r.status [
  | full ↦ 0
  | _ ↦ if leb r.head r.tail then r.head + ring_buffer_size - r.tail else r.head - r.tail
]

unfoldable pub all_write_ends_closed : (ℕ → Bool) → PipeRingBuffer → Outcome Bool
all_write_ends_closed alive r = do pipe ← unwrap r.write_end; returned (not (alive pipe))

pub record Pipe : Type 0 where
  pub readable : Bool
  pub writable : Bool

unfoldable pub read_end_with_buffer : Pipe
read_end_with_buffer = record { readable = true; writable = false }

unfoldable pub write_end_with_buffer : Pipe
write_end_with_buffer = record { readable = false; writable = true }

-- `make_pipe`: the two ends and the buffer that they share; `pipe` names the new write end.
unfoldable pub make_pipe : (pipe : ℕ) → Pipe × Pipe × PipeRingBuffer
unfolding new set_write_end
make_pipe pipe = (read_end_with_buffer, write_end_with_buffer, set_write_end new pipe)

-- How a round ends: the loop goes on, the task waits for another round, or the call returns.
pub data Round : Type 0 where
  again : Round
  suspended : Round
  finished : Round

-- `for _ in 0..loop_read`: `room` is what the user buffer still takes; the bytes come in order.
unfoldable pub read_bytes :
    (loop_read room : ℕ) → PipeRingBuffer → Outcome (Round × List ℕ × ℕ × PipeRingBuffer)
unfolding read_byte
read_bytes zero room r = returned (again, [], room, r)
read_bytes (suc n) zero r = returned (finished, [], zero, r)
read_bytes (suc n) (suc room) r = do
  (c, r') ← read_byte r
  (end, rest, left, r'') ← read_bytes n room r'
  returned (end, c ∷ rest, left, r'')

-- A round of `read`.
unfoldable pub read_round :
    (ℕ → Bool) → (room : ℕ) → PipeRingBuffer → Outcome (Round × List ℕ × ℕ × PipeRingBuffer)
unfolding read_bytes available_read all_write_ends_closed
read_round alive room r =
    let loop_read = available_read r in
    if loop_read == 0
    then (do
      closed ← all_write_ends_closed alive r
      returned (if closed then finished else suspended, [], room, r))
    else read_bytes loop_read room r

-- `for _ in 0..loop_write`: the bytes that are left of the user buffer come back.
unfoldable pub write_bytes :
    (loop_write : ℕ) → List ℕ → PipeRingBuffer → Outcome (Round × List ℕ × PipeRingBuffer)
unfolding write_byte
write_bytes zero bytes r = returned (again, bytes, r)
write_bytes (suc n) [] r = returned (finished, [], r)
write_bytes (suc n) (byte ∷ bytes) r = do (_, r') ← write_byte r byte; write_bytes n bytes r'

-- A round of `write`.
unfoldable pub write_round : List ℕ → PipeRingBuffer → Outcome (Round × List ℕ × PipeRingBuffer)
unfolding write_bytes available_write
write_round bytes r =
    let loop_write = available_write r in
    if loop_write == 0 then returned (suspended, bytes, r) else write_bytes loop_write bytes r
