-- ===== src/Fat32/ShortDirEntry/Fields.antt =====
-- The cluster, the dates and the checksum of an entry.
use bitos.Base.{ℕ, ◌+◌, ◌*◌, ◌/◌, ◌%◌, ◌^◌, ◌<◌, ◌≡◌, refl, arith, List, [], ◌∷◌, ◌++◌}
use bitos.Base.Bits.{and_low_mask}
use bitos.Base.HighBits.{and_high_mask}
use bitos.Fat32.ShortDirEntry.{
  ShortDirEntry, date_time, first_cluster, set_first_cluster, add_byte, checksum, checksum_from,
}

-- The first cluster that was set is the one that is read, whatever its 32 bits; the other fields stay.
pub first_cluster-set_first_cluster :
    (e : ShortDirEntry) (c : ℕ)
    → c < 2 ^ 32
    → (first_cluster (set_first_cluster e c) ≡ c)
      × (ShortDirEntry.name (set_first_cluster e c) ≡ e.name)
      × (ShortDirEntry.size (set_first_cluster e c) ≡ e.size)
unfolding first_cluster set_first_cluster
first_cluster-set_first_cluster e c h = (
  omega (arith, and_high_mask 16 c 0xFFFF, and_low_mask 16 (c / 2 ^ 16), and_low_mask 16 c),
  refl,
  refl,
)

-- One round of the checksum turns the sum right by one bit and adds the byte.
abbrev pub rotated : ℕ → ℕ
rotated s = s % 2 * 128 + s / 2

add_byte-eq-rotated : (s b : ℕ) → s < 2 ^ 8 → add_byte s b ≡ (rotated s + b) % 2 ^ 8
unfolding add_byte
add_byte-eq-rotated s b h = ground (arith, and_low_mask 1 s)

-- The checksum of the specification of long names: rotate and add, over the bytes.
abbrev pub rotated_sum : ℕ → List ℕ → ℕ
rotated_sum s [] = s
rotated_sum s (b ∷ bs) = rotated_sum ((rotated s + b) % 2 ^ 8) bs

checksum_from-eq-rotated : (s : ℕ) (bs : List ℕ) → s < 2 ^ 8 → checksum_from s bs ≡ rotated_sum s bs
unfolding checksum_from
checksum_from-eq-rotated s [] h = refl
checksum_from-eq-rotated s (b ∷ bs) h =
    rw (add_byte-eq-rotated s b h)
      (checksum_from-eq-rotated ((rotated s + b) % 2 ^ 8) bs (omega arith))

-- The checksum of an entry rotates an 8-bit sum right and adds the next byte, over the name and then
-- the extension.
pub checksum-eq-rotated_sum :
    (e : ShortDirEntry) → checksum e ≡ rotated_sum 0 (e.name ++ e.extension)
unfolding checksum
checksum-eq-rotated_sum e = checksum_from-eq-rotated 0 (e.name ++ e.extension) (omega arith)

-- A date and a time as the fields hold them.
abbrev pub packed_date : (year month day : ℕ) → ℕ
packed_date year month day = year * 512 + month * 32 + day

abbrev pub packed_time : (hour min sec : ℕ) → ℕ
packed_time hour min sec = hour * 2048 + min * 32 + sec

-- The decoded date and time are the packed ones: years count from 1980 and seconds by twos. The
-- year, month, day, hour, minute and halved seconds fit in their 7, 4, 5, 5, 6 and 5 bits.
pub date_time_fields :
    (y mo d h mi s : ℕ)
    → y < 128
    → mo < 16
    → d < 32
    → h < 32
    → mi < 64
    → s < 32
    → let t = date_time (packed_date y mo d) (packed_time h mi s) in
      (t.year ≡ y + 1980)
      × (t.month ≡ mo)
      × (t.day ≡ d)
      × (t.hour ≡ h)
      × (t.min ≡ mi)
      × (t.sec ≡ s * 2)
unfolding date_time
date_time_fields y mo d h mi s hy hm hd hh hi hs =
    let a = packed_date y mo d in
    let b = packed_time h mi s in
    (
      omega (arith, and_high_mask 9 a 0x7F, and_low_mask 7 (a / 2 ^ 9)),
      omega (arith, and_high_mask 5 a 0xF, and_low_mask 4 (a / 2 ^ 5)),
      omega (arith, and_low_mask 5 a),
      omega (arith, and_high_mask 11 b 0x1F, and_low_mask 5 (b / 2 ^ 11)),
      omega (arith, and_high_mask 5 b 0x3F, and_low_mask 6 (b / 2 ^ 5)),
      omega (arith, and_low_mask 5 b),
    )
