-- ===== src/Fat32/Table.antt =====
-- `FAT` of fat32/src/layout.rs: the two copies of the file allocation table. The loops that the
-- source leaves unbounded take fuel, and `none` means that it ran out.
pub mod Chains
pub mod Entries
pub mod Search
pub mod Tests
use bitos.Base.{
  ℕ, zero, suc, ◌+◌, ◌-◌, ◌*◌, ◌/◌, ◌%◌, ◌^◌, bit_and, Bool, Option, none, some, List, [], ◌∷◌,
  ◌||◌, ◌==◌, leb, ltb, if◌then◌else◌, Outcome, returned, panicked, ◌>>=◌, ◌>>◌, assert, not,
}
use bitos.Fat32.Volume.{Volume, set_info}

abbrev pub free_cluster : ℕ
free_cluster = 0

abbrev pub end_cluster : ℕ
end_cluster = 0x0FFFFFF8

abbrev pub bad_cluster : ℕ
bad_cluster = 0x0FFFFFF7

abbrev pub fatentry_per_sec : ℕ
fatentry_per_sec = 512 / 4

-- `x & 0x0FFFFFFF`
unfoldable pub low28 : ℕ → ℕ
low28 x = bit_and x 0x0FFFFFFF

pub record Fat : Type 0 where
  pub fat1_sector : ℕ
  pub fat2_sector : ℕ
  pub n_sectors : ℕ
  pub n_entry : ℕ

unfoldable pub calculate_pos : Fat → ℕ → ℕ × ℕ × ℕ
calculate_pos fat cluster = (
  (fat.fat1_sector + cluster / fatentry_per_sec) % 2 ^ 32,
  (fat.fat2_sector + cluster / fatentry_per_sec) % 2 ^ 32,
  4 * (cluster % fatentry_per_sec),
)

-- The loop of `next_free_cluster`.
unfoldable pub seek_free : ℕ → Fat → Volume → ℕ → Option ℕ
seek_free zero fat vol curr_cluster = none
seek_free (suc k) fat vol curr_cluster =
    let (fat1_sec, fat2_sec, offset) = calculate_pos fat curr_cluster in
    let later = seek_free k fat vol ((curr_cluster + 1) % 2 ^ 32) in
    if vol.info fat1_sec offset == free_cluster then some (low28 curr_cluster) else later

unfoldable pub next_free_cluster : ℕ → Fat → Volume → ℕ → Option ℕ
next_free_cluster fuel fat vol current_cluster =
    seek_free fuel fat vol ((current_cluster + 1) % 2 ^ 32)

unfoldable pub get_next_cluster : Fat → Volume → ℕ → ℕ
get_next_cluster fat vol cluster =
    let (fat1_sec, fat2_sec, offset) = calculate_pos fat cluster in
    let fat1_rs = vol.info fat1_sec offset in
    let fat2_rs = vol.info fat2_sec offset in
    if fat1_rs == bad_cluster
    then (if fat2_rs == bad_cluster then 0 else low28 fat2_rs)
    else low28 fat1_rs

unfoldable pub set_next_cluster : Fat → Volume → (cluster next_cluster : ℕ) → Volume
set_next_cluster fat vol cluster next_cluster =
    let (fat1_sec, fat2_sec, offset) = calculate_pos fat cluster in
    set_info (set_info vol fat1_sec offset next_cluster) fat2_sec offset next_cluster

unfoldable pub set_end : Fat → Volume → ℕ → Volume
set_end fat vol cluster = set_next_cluster fat vol cluster end_cluster

-- The loop of `get_cluster_at`; `index` rounds are left.
unfoldable pub follow : Fat → Volume → ℕ → ℕ → ℕ
follow fat vol zero cluster = cluster
follow fat vol (suc index) cluster =
    let next = get_next_cluster fat vol cluster in
    let later = follow fat vol index next in if next == 0 then 0 else later

unfoldable pub get_cluster_at : Fat → Volume → (start_cluster index : ℕ) → ℕ
get_cluster_at fat vol start_cluster index = low28 (follow fat vol index start_cluster)

-- The loop of `final_cluster`.
unfoldable pub seek_final : ℕ → Fat → Volume → ℕ → Option ℕ
seek_final zero fat vol curr_cluster = none
seek_final (suc k) fat vol curr_cluster =
    let next = get_next_cluster fat vol curr_cluster in
    let later = seek_final k fat vol next in
    if leb end_cluster next || next == 0 then some (low28 curr_cluster) else later

unfoldable pub final_cluster : ℕ → Fat → Volume → ℕ → Outcome (Option ℕ)
final_cluster fuel fat vol start_cluster = do
  assert (not (start_cluster == 0))
  returned (seek_final fuel fat vol start_cluster)

abbrev pub cons_to : ℕ → Option (List ℕ) → Option (List ℕ)
cons_to x none = none
cons_to x (some xs) = some (x ∷ xs)

unfoldable pub get_all_cluster_of : ℕ → Fat → Volume → ℕ → Option (List ℕ)
get_all_cluster_of zero fat vol curr_cluster = none
get_all_cluster_of (suc k) fat vol curr_cluster =
    let next = get_next_cluster fat vol curr_cluster in
    let later = get_all_cluster_of k fat vol next in
    if leb end_cluster next || next == 0
    then some (low28 curr_cluster ∷ [])
    else cons_to (low28 curr_cluster) later

-- The loop of `count_claster_num`.
unfoldable pub count_from : ℕ → Fat → Volume → (curr_cluster count : ℕ) → Option ℕ
count_from zero fat vol curr_cluster count = none
count_from (suc k) fat vol curr_cluster count =
    let count' = (count + 1) % 2 ^ 32 in
    let next = get_next_cluster fat vol curr_cluster in
    let later = count_from k fat vol next count' in
    if leb end_cluster next || ltb 0xF000000 next then some count' else later

unfoldable pub count_claster_num : ℕ → Fat → Volume → ℕ → Option ℕ
count_claster_num fuel fat vol start_cluster =
    if start_cluster == 0 then some 0 else count_from fuel fat vol start_cluster 0
