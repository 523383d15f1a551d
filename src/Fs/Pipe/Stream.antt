-- ===== src/Fs/Pipe/Stream.antt =====
-- A pipe under any interleaving of the rounds of its readers and writers.
use mathlib.Core.List.{append_assoc}
use bitos.Base.{
  ℕ, ◌+◌, ◌-◌, ◌≤◌, ◌≡◌, refl, ap, sym, ◌∙◌, arith, Bool, some, List, [], ◌++◌, returned, length,
  length-append, take, subst, take-append,
}
use bitos.Fs.Pipe.{PipeRingBuffer, Round, make_pipe, read_round, write_round, available_read}
use bitos.Fs.Pipe.Ring.{IsValid, contents, counts, length-held}
use bitos.Fs.Pipe.Rounds.{read_round_refines, write_round_refines}

-- The ring, which write ends have owners, and the bytes sent and received so far.
pub record System : Type 0 where
  pub ring : PipeRingBuffer
  pub alive : ℕ → Bool
  pub sent : List ℕ
  pub received : List ℕ

-- What a round of `write` took of `bytes`, when it left `rest`.
abbrev pub consumed : List ℕ → List ℕ → List ℕ
consumed bytes rest = take (length bytes - length rest) bytes

pub data Step : System → System → Type 0 where
  reads :
      (s : System) (room left : ℕ) (end : Round) (got : List ℕ) (ring : PipeRingBuffer)
      → read_round s.alive room s.ring ≡ returned (end, got, left, ring)
      → Step s (record s { ring = ring; received = s.received ++ got })
  writes :
      (s : System) (bytes rest : List ℕ) (end : Round) (ring : PipeRingBuffer)
      → write_round bytes s.ring ≡ returned (end, rest, ring)
      → Step s (record s { ring = ring; sent = s.sent ++ consumed bytes rest })
  owners : (s : System) (alive : ℕ → Bool) → Step s (record s { alive = alive })

abbrev pub opened : ℕ → (ℕ → Bool) → System
opened pipe alive = record { ring = (make_pipe pipe).2; alive = alive; sent = []; received = [] }

pub data Reach (pipe : ℕ) (alive : ℕ → Bool) : System → Type 0 where
  here : Reach pipe alive (opened pipe alive)
  then_step : {s t : System} → Reach pipe alive s → Step s t → Reach pipe alive t

pub record Inv (pipe : ℕ) (s : System) : Type 0 where
  pub valid : IsValid s.ring
  pub write_end : s.ring.write_end ≡ some pipe
  pub stream : s.received ++ contents s.ring ≡ s.sent

module _ {pipe : ℕ} {s : System} (v : Inv pipe s) where
  reads-Inv :
      (room left : ℕ) (end : Round) (got : List ℕ) (ring : PipeRingBuffer)
      → read_round s.alive room s.ring ≡ returned (end, got, left, ring)
      → Inv pipe (record s { ring = ring; received = s.received ++ got })
  reads-Inv room left end got ring e =
      let (end', got', left', ring', e', p, _) =
        read_round_refines s.alive room pipe s.ring v.valid v.write_end in
      let same_ring : ring' ≡ ring = cc in
      let same_got : got' ≡ got = cc in
      record {
        valid = subst IsValid same_ring p.valid;
        write_end = ap PipeRingBuffer.write_end (sym same_ring) ∙ p.write_end ∙ v.write_end;
        stream =
            rw (← same_got, ← same_ring)
              (append_assoc s.received got' (contents ring')
                ∙ ap (◌++◌ s.received) (sym p.order)
                ∙ v.stream);
      }

  writes-Inv :
      (bytes rest : List ℕ) (end : Round) (ring : PipeRingBuffer)
      → write_round bytes s.ring ≡ returned (end, rest, ring)
      → Inv pipe (record s { ring = ring; sent = s.sent ++ consumed bytes rest })
  writes-Inv bytes rest end ring e =
      let (end', taken, rest', ring', e', p, _) = write_round_refines bytes s.ring v.valid in
      let same_ring : ring' ≡ ring = cc in
      let same_rest : rest' ≡ rest = cc in
      record {
        valid = subst IsValid same_ring p.valid;
        write_end = ap PipeRingBuffer.write_end (sym same_ring) ∙ p.write_end ∙ v.write_end;
        stream =
            rw (← same_ring, ← same_rest)
              (ap (◌++◌ s.received) p.order
                ∙ sym (append_assoc s.received (contents s.ring) taken)
                ∙ ap (λ l. l ++ taken) v.stream
                ∙ ap (◌++◌ s.sent) (
                    sym (
                      ap (λ b. consumed b rest') p.split
                      ∙ take-append taken rest' _ (omega (arith, length-append taken rest')))));
      }

opened-Inv : (pipe : ℕ) (alive : ℕ → Bool) → Inv pipe (opened pipe alive)
unfolding make_pipe available_read
opened-Inv pipe alive = record {
  valid = record { size = refl; head_lt = omega arith; tail_lt = omega arith; agrees = refl };
  write_end = refl;
  stream = refl;
}

Reach-Inv : {pipe : ℕ} {alive : ℕ → Bool} {s : System} → Reach pipe alive s → Inv pipe s
Reach-Inv {pipe} {alive} here = opened-Inv pipe alive
Reach-Inv (then_step r (reads s room left end got ring e)) =
    reads-Inv (Reach-Inv r) room left end got ring e
Reach-Inv (then_step r (writes s bytes rest end ring e)) =
    writes-Inv (Reach-Inv r) bytes rest end ring e
Reach-Inv (then_step r (owners s alive)) =
    let v = Reach-Inv r in record { valid = v.valid; write_end = v.write_end; stream = v.stream }

-- In any interleaving of rounds of `read` and `write` on a new pipe, and whatever happens to the
-- owners of its write end, the bytes received and those in the ring are the bytes sent, in order:
-- none is lost, repeated or changed, and at most 32 are on the way.
pub Reach-stream :
    {pipe : ℕ} {alive : ℕ → Bool} {s : System}
    → Reach pipe alive s
    → (s.received ++ contents s.ring ≡ s.sent)
      × (length s.received ≤ length s.sent)
      × (length s.sent ≤ length s.received + 32)
Reach-stream {s} r =
    let v = Reach-Inv r in
    let sizes : length s.sent ≡ length s.received + available_read s.ring =
      ap length (sym v.stream)
      ∙ length-append s.received (contents s.ring)
      ∙ ap (λ n. length s.received + n) (length-held _ _ (available_read s.ring)) in
    (v.stream, omega (arith, sizes), omega (arith, sizes, counts v.valid))
