-- ===== src/Fs/Pipe/Ring.antt =====
-- The ring holds the bytes written and not yet read, in order.
use bitos.Base.{
  ℕ, zero, suc, ◌+◌, ◌%◌, ◌<◌, ◌≡◌, ◌≢◌, refl, ap, ap₂, ◌∙◌, arith, Bool, List, [], ◌∷◌, ◌++◌, ◌==◌,
  if◌then◌else◌, not, returned, get_or, set, length, length-set, get_or-set_self, get_or-set_ne,
  get_elem?-eq-get_or, ltb,
}
use bitos.Fs.Pipe.{
  PipeRingBuffer, RingBufferStatus, full, empty, normal, read_byte, write_byte, available_read,
  available_write,
}

abbrev pub Agrees : RingBufferStatus → ℕ → ℕ → Type 0
Agrees full head tail = head ≡ tail
Agrees empty head tail = head ≡ tail
Agrees normal head tail = head ≢ tail

pub record IsValid (r : PipeRingBuffer) : Type 0 where
  pub size : length r.arr ≡ 32
  pub head_lt : r.head < 32
  pub tail_lt : r.tail < 32
  pub agrees : Agrees r.status r.head r.tail

-- The `n` bytes from index `h` on, round the end of the array.
abbrev pub held : List ℕ → ℕ → ℕ → List ℕ
held arr h zero = []
held arr h (suc n) = get_or arr h 0 ∷ held arr ((h + 1) % 32) n

abbrev pub contents : PipeRingBuffer → List ℕ
contents r = held r.arr r.head (available_read r)

pub length-held : (arr : List ℕ) (h n : ℕ) → length (held arr h n) ≡ n
length-held arr h zero = refl
length-held arr h (suc n) = ap suc (length-held arr ((h + 1) % 32) n)

-- A write just past the bytes held adds one.
held-set :
    (arr : List ℕ) (x n h i : ℕ)
    → length arr ≡ 32
    → h < 32
    → n < 32
    → i ≡ (h + n) % 32
    → held (set arr i x) h (suc n) ≡ held arr h n ++ x ∷ []
held-set arr x zero h i size hh hn e =
    let here : i ≡ h = omega arith in rw (here, get_or-set_self arr h x 0 (omega arith)) refl
held-set arr x (suc n) h i size hh hn e =
    ap₂ ◌∷◌ (get_or-set_ne arr x 0 (omega arith))
      (held-set arr x n ((h + 1) % 32) i size (omega arith) (omega arith) (omega arith))

-- The counts of a valid ring.
pub counts :
    {r : PipeRingBuffer}
    → IsValid r
    → (available_read r + available_write r ≡ 32) × (r.tail ≡ (r.head + available_read r) % 32)
unfolding available_read available_write
counts v = ground arith

abbrev after_read : PipeRingBuffer → PipeRingBuffer
after_read r = record r {
  head = (r.head + 1) % 32;
  status = if (r.head + 1) % 32 == r.tail then empty else normal;
}

after_read-count :
    {r : PipeRingBuffer}
    → IsValid r
    → 0 < available_read r
    → available_read r ≡ suc (available_read (after_read r))
unfolding available_read
after_read-count v h = ground arith

after_read-IsValid : {r : PipeRingBuffer} → IsValid r → IsValid (after_read r)
after_read-IsValid v = ground arith

-- Where the valid ring holds a byte, `read_byte` returns the oldest and takes it out.
pub read_byte_refines :
    {r : PipeRingBuffer}
    → IsValid r
    → 0 < available_read r
    → (c : ℕ) × (r' : PipeRingBuffer) × (read_byte r ≡ returned (c, r'))
      × (contents r ≡ c ∷ contents r')
      × IsValid r'
      × (available_read r ≡ suc (available_read r'))
      × (r'.write_end ≡ r.write_end)
unfolding read_byte
read_byte_refines {r} v h = (
  get_or r.arr r.head 0,
  after_read r,
  ground (arith, get_elem?-eq-get_or r.arr r.head 0),
  ap (held r.arr r.head) (after_read-count v h),
  after_read-IsValid v,
  after_read-count v h,
  refl,
)

abbrev after_write : PipeRingBuffer → ℕ → PipeRingBuffer
after_write r byte = record r {
  arr = set r.arr r.tail byte;
  tail = (r.tail + 1) % 32;
  status = if r.head == (r.tail + 1) % 32 then full else normal;
}

after_write-count :
    {r : PipeRingBuffer} (byte : ℕ)
    → IsValid r
    → 0 < available_write r
    → available_read (after_write r byte) ≡ suc (available_read r)
unfolding available_read available_write
after_write-count byte v h = ground arith

after_write-IsValid : {r : PipeRingBuffer} (byte : ℕ) → IsValid r → IsValid (after_write r byte)
after_write-IsValid {r} byte v = ground (arith, length-set r.arr r.tail byte)

after_write-room :
    {r : PipeRingBuffer} (byte : ℕ)
    → IsValid r
    → 0 < available_write r
    → not (r.head == (r.tail + 1) % 32) ≡ ltb 0 (available_write (after_write r byte))
unfolding available_write
after_write-room byte v h = ground arith

-- Where the valid ring has room, `write_byte` adds the byte behind those it holds, and says whether
-- there is room for more.
pub write_byte_refines :
    {r : PipeRingBuffer} (byte : ℕ)
    → IsValid r
    → 0 < available_write r
    → (b : Bool) × (r' : PipeRingBuffer) × (write_byte r byte ≡ returned (b, r'))
      × (contents r' ≡ contents r ++ byte ∷ [])
      × IsValid r'
      × (available_read r' ≡ suc (available_read r))
      × (r'.write_end ≡ r.write_end)
      × (b ≡ ltb 0 (available_write r'))
unfolding write_byte
write_byte_refines {r} byte v h = (
  not (r.head == (r.tail + 1) % 32),
  after_write r byte,
  ground arith,
  ap (held (set r.arr r.tail byte) r.head) (after_write-count byte v h)
      ∙ held-set r.arr byte (available_read r) r.head r.tail v.size v.head_lt
          (omega (arith, counts v)) (counts v).1,
  after_write-IsValid byte v,
  after_write-count byte v h,
  refl,
  after_write-room byte v h,
)
