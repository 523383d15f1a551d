-- ===== src/Fs/Pipe/Rounds.antt =====
-- What a round of `read` and of `write` does to a valid ring.
use mathlib.Core.List.{append_assoc, append-nil}
use bitos.Base.{
  ℕ, zero, suc, ◌+◌, ◌≤◌, ◌<◌, ◌≡◌, refl, ap, sym, ◌∙◌, ◌⊎◌, inl, inr, arith, Bool, true, false,
  some, List, [], ◌∷◌, ◌++◌, ◌==◌, returned, length, Bool-cases,
}
use bitos.Fs.Pipe.{
  PipeRingBuffer, Round, again, suspended, finished, available_read, available_write, read_bytes,
  write_bytes, read_round, write_round,
}
use bitos.Fs.Pipe.Ring.{IsValid, contents, counts, read_byte_refines, write_byte_refines}

-- `got` came out of the front of the ring.
pub record Read (r : PipeRingBuffer) (room : ℕ) (got : List ℕ) (left : ℕ) (r' : PipeRingBuffer)
    : Type 0 where
  pub order : contents r ≡ got ++ contents r'
  pub valid : IsValid r'
  pub filled : length got + left ≡ room
  pub drained : available_read r ≡ length got + available_read r'
  pub write_end : r'.write_end ≡ r.write_end

-- `taken` went in behind what the ring held.
pub record Written (r : PipeRingBuffer) (bytes taken rest : List ℕ) (r' : PipeRingBuffer)
    : Type 0 where
  pub split : bytes ≡ taken ++ rest
  pub order : contents r' ≡ contents r ++ taken
  pub valid : IsValid r'
  pub grown : available_read r' ≡ available_read r + length taken
  pub write_end : r'.write_end ≡ r.write_end

read_bytes_refines :
    (n room : ℕ) (r : PipeRingBuffer)
    → IsValid r
    → n ≤ available_read r
    → (end : Round) × (got : List ℕ) × (left : ℕ) × (r' : PipeRingBuffer) × (read_bytes n room r
        ≡ returned (end, got, left, r'))
      × Read r room got left r'
      × (((end ≡ again) × (length got ≡ n)) ⊎ ((end ≡ finished) × (left ≡ 0) × (length got < n)))
unfolding read_bytes
read_bytes_refines zero room r v h = (
  again,
  [],
  room,
  r,
  refl,
  record { order = refl; valid = v; filled = omega arith; drained = omega arith; write_end = refl },
  inl (refl, refl),
)
read_bytes_refines (suc n) zero r v h = (
  finished,
  [],
  zero,
  r,
  refl,
  record { order = refl; valid = v; filled = omega arith; drained = omega arith; write_end = refl },
  inr (refl, refl, omega arith),
)
read_bytes_refines (suc n) (suc room) r v h =
    let (c, r1, e1, o1, v1, n1, w1) = read_byte_refines v (omega arith) in
    let (end, got, left, r2, e2, p, q) = read_bytes_refines n room r1 v1 (omega (arith, n1)) in
    (
      end,
      c ∷ got,
      left,
      r2,
      rw (e1, e2) refl,
      record {
        order = o1 ∙ ap (◌∷◌ c) p.order;
        valid = p.valid;
        filled = omega (arith, p.filled);
        drained = omega (arith, p.drained, n1);
        write_end = p.write_end ∙ w1;
      },
      ground arith,
    )

write_bytes_refines :
    (n : ℕ) (bytes : List ℕ) (r : PipeRingBuffer)
    → IsValid r
    → n ≤ available_write r
    → (end : Round) × (taken : List ℕ) × (rest : List ℕ) × (r' : PipeRingBuffer) × (write_bytes n
          bytes r
        ≡ returned (end, rest, r'))
      × Written r bytes taken rest r'
      × (((end ≡ again) × (length taken ≡ n))
          ⊎ ((end ≡ finished) × (rest ≡ []) × (length taken < n)))
unfolding write_bytes
write_bytes_refines zero bytes r v h = (
  again,
  [],
  bytes,
  r,
  refl,
  record {
    split = refl;
    order = sym (append-nil _);
    valid = v;
    grown = omega arith;
    write_end = refl;
  },
  inl (refl, refl),
)
write_bytes_refines (suc n) [] r v h = (
  finished,
  [],
  [],
  r,
  refl,
  record {
    split = refl;
    order = sym (append-nil _);
    valid = v;
    grown = omega arith;
    write_end = refl;
  },
  inr (refl, refl, omega arith),
)
write_bytes_refines (suc n) (byte ∷ bytes) r v h =
    let (b, r1, e1, o1, v1, n1, w1, _) = write_byte_refines byte v (omega arith) in
    let (end, taken, rest, r2, e2, p, q) =
      write_bytes_refines n bytes r1 v1 (omega (arith, n1, counts v, counts v1)) in
    (
      end,
      byte ∷ taken,
      rest,
      r2,
      rw (e1, e2) refl,
      record {
        split = ap (◌∷◌ byte) p.split;
        order = p.order ∙ ap (λ l. l ++ taken) o1 ∙ append_assoc (contents r) (byte ∷ []) taken;
        valid = p.valid;
        grown = omega (arith, p.grown, n1);
        write_end = p.write_end ∙ w1;
      },
      ground arith,
    )

-- How a round of `read` ends.
abbrev pub ReadEnds : (ℕ → Bool) → ℕ → PipeRingBuffer → ℕ → Round → List ℕ → Type 0
ReadEnds alive room r pipe suspended got = (available_read r ≡ 0) × (alive pipe ≡ true) × (got ≡ [])
ReadEnds alive room r pipe again got = (0 < available_read r) × (length got ≡ available_read r)
ReadEnds alive room r pipe finished got =
    ((available_read r ≡ 0) × (alive pipe ≡ false) × (got ≡ []))
    ⊎ ((room < available_read r) × (length got ≡ room))

-- A round of `read` on a valid ring with a write end does not panic. It takes bytes from the front
-- of the ring in order: all that are there, or as many as fit the user buffer, and the call returns
-- if they do not fit. On an empty ring the call returns if the write end is closed, and the task is
-- suspended otherwise.
pub read_round_refines :
    (alive : ℕ → Bool) (room pipe : ℕ) (r : PipeRingBuffer)
    → IsValid r
    → r.write_end ≡ some pipe
    → (end : Round) × (got : List ℕ) × (left : ℕ) × (r' : PipeRingBuffer) × (read_round alive room r
        ≡ returned (end, got, left, r'))
      × Read r room got left r'
      × ReadEnds alive room r pipe end got
unfolding read_round
read_round_refines alive room pipe r v w = elim (Bool-cases (available_read r == 0)) [
  | inl none_there ↦ elim (Bool-cases (alive pipe)) [
    | inl owned ↦
        (suspended, [], room, r, ground arith, stay none_there, (ground arith, owned, refl))
    | inr closed ↦
        (finished, [], room, r, ground arith, stay none_there, inl (ground arith, closed, refl))
  ]
  | inr there ↦
      let (end, got, left, r', e, p, q) =
        read_bytes_refines (available_read r) room r v (omega arith) in
      (end, got, left, r', rw (there, e) refl, p, ends there end got left p.filled q)
]
  where
    stay : (available_read r == 0) ≡ true → Read r room [] room r
    stay e = record {
      order = refl;
      valid = v;
      filled = omega arith;
      drained = omega arith;
      write_end = refl;
    }

    ends :
        (available_read r == 0) ≡ false
        → (end : Round) (got : List ℕ) (left : ℕ) → length got + left ≡ room
        → ((end ≡ again) × (length got ≡ available_read r))
          ⊎ ((end ≡ finished) × (left ≡ 0) × (length got < available_read r))
        → ReadEnds alive room r pipe end got
    ends there end got left filled (inl (e, n)) = rw e (ground arith, n)
    ends there end got left filled (inr (e, z, n)) = rw e (inr (omega arith, omega arith))

-- How a round of `write` ends.
abbrev pub WriteEnds : PipeRingBuffer → Round → List ℕ → List ℕ → Type 0
WriteEnds r suspended taken rest = (available_write r ≡ 0) × (taken ≡ [])
WriteEnds r again taken rest = (0 < available_write r) × (length taken ≡ available_write r)
WriteEnds r finished taken rest = (rest ≡ []) × (length taken < available_write r)

-- A round of `write` on a valid ring does not panic. It puts bytes behind those in the ring, in
-- order: as many as there is room for, or all that are left, and then the call returns if there was
-- room for more. Without room the task is suspended.
pub write_round_refines :
    (bytes : List ℕ) (r : PipeRingBuffer)
    → IsValid r
    → (end : Round) × (taken : List ℕ) × (rest : List ℕ) × (r' : PipeRingBuffer) × (write_round
          bytes r
        ≡ returned (end, rest, r'))
      × Written r bytes taken rest r'
      × WriteEnds r end taken rest
unfolding write_round
write_round_refines bytes r v = elim (Bool-cases (available_write r == 0)) [
  | inl full ↦ (
    suspended,
    [],
    bytes,
    r,
    rw full refl,
    record {
      split = refl;
      order = sym (append-nil _);
      valid = v;
      grown = omega arith;
      write_end = refl;
    },
    (ground arith, refl),
  )
  | inr room ↦
      let (end, taken, rest, r', e, p, q) =
        write_bytes_refines (available_write r) bytes r v (omega arith) in
      (end, taken, rest, r', rw (room, e) refl, p, ends room end taken rest q)
]
  where
    ends :
        (available_write r == 0) ≡ false
        → (end : Round) (taken rest : List ℕ)
        → ((end ≡ again) × (length taken ≡ available_write r))
          ⊎ ((end ≡ finished) × (rest ≡ []) × (length taken < available_write r))
        → WriteEnds r end taken rest
    ends room end taken rest (inl (e, n)) = rw e (ground arith, n)
    ends room end taken rest (inr (e, z, n)) = rw e (z, n)
