-- ===== src/Fs/Pipe/Tests.antt =====
-- Runs of the pipe, and the theorems at concrete inputs.
use bitos.Base.{
  ℕ, ◌+◌, ◌≤◌, ◌≡◌, refl, arith, Bool, true, some, List, [], ◌∷◌, ◌++◌, returned, replicate,
}
use bitos.Fs.Pipe.{
  PipeRingBuffer, Round, finished, normal, available_read, read_round, write_round, make_pipe,
}
use bitos.Fs.Pipe.Ring.{IsValid, contents}
use bitos.Fs.Pipe.Rounds.{
  Read, ReadEnds, Written, WriteEnds, read_round_refines, write_round_refines,
}
use bitos.Fs.Pipe.Stream.{Reach, here, then_step, writes, opened, Reach-stream}

abbrev always : ℕ → Bool
always p = true

-- Two bytes, the second behind the end of the array.
abbrev wrapped : PipeRingBuffer
wrapped = record {
  arr = 8 ∷ replicate 30 0 ++ 7 ∷ [];
  head = 31;
  tail = 1;
  status = normal;
  write_end = some 5;
}

wrapped-IsValid : IsValid wrapped
wrapped-IsValid = record {
  size = refl;
  head_lt = omega arith;
  tail_lt = omega arith;
  agrees = omega arith;
}

contents-wrapped : contents wrapped ≡ 7 ∷ 8 ∷ []
unfolding available_read
contents-wrapped = refl

read_round_refines_example :
    (end : Round) × (got : List ℕ) × (left : ℕ) × (r' : PipeRingBuffer) × (read_round always 9
        wrapped
      ≡ returned (end, got, left, r'))
    × Read wrapped 9 got left r'
    × ReadEnds always 9 wrapped 5 end got
read_round_refines_example = read_round_refines always 9 5 wrapped wrapped-IsValid refl

write_round_refines_example :
    (end : Round) × (taken : List ℕ) × (rest : List ℕ) × (r' : PipeRingBuffer) × (write_round
        (1 ∷ 2 ∷ [])
        wrapped
      ≡ returned (end, rest, r'))
    × Written wrapped (1 ∷ 2 ∷ []) taken rest r'
    × WriteEnds wrapped end taken rest
write_round_refines_example = write_round_refines (1 ∷ 2 ∷ []) wrapped wrapped-IsValid

fresh : PipeRingBuffer
unfolding make_pipe
fresh = (make_pipe 5).2

abbrev loaded : PipeRingBuffer
loaded = record {
  arr = 1 ∷ 2 ∷ replicate 30 0;
  head = 0;
  tail = 2;
  status = normal;
  write_end = some 5;
}

first_write : write_round (1 ∷ 2 ∷ []) (opened 5 always).ring ≡ returned (finished, [], loaded)
unfolding write_round make_pipe
first_write = refl

one_write :
    Reach 5 always (record { ring = loaded; alive = always; sent = 1 ∷ 2 ∷ []; received = [] })
one_write = then_step here (writes (opened 5 always) (1 ∷ 2 ∷ []) [] finished loaded first_write)

Reach-stream_example : ([] ++ contents loaded ≡ 1 ∷ 2 ∷ []) × (0 ≤ 2) × (2 ≤ 0 + 32)
Reach-stream_example = Reach-stream one_write
