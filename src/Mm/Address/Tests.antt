-- ===== src/Mm/Address/Tests.antt =====
-- Runs of the address functions, and the theorems at concrete inputs.
use bitos.Base.{◌+◌, ◌*◌, ◌≤◌, ◌<◌, ◌≡◌, refl, arith, some, [], ◌∷◌}
use bitos.Config.{page_size}
use bitos.Mm.Address.{floor, ceil, into_iter, next, visited}
use bitos.Mm.Address.Pages.{floor-ceil_bounds}

floor-ceil_bounds_example :
    (floor 4097 * page_size ≤ 4097)
    × (4097 < floor 4097 * page_size + page_size)
    × (4097 ≤ ceil 4097 * page_size)
    × (ceil 4097 * page_size < 4097 + page_size)
floor-ceil_bounds_example = floor-ceil_bounds 4097 (omega arith) (omega arith)

ceil_of_zero : ceil 0 ≡ 0
unfolding ceil
ceil_of_zero = refl

loop_visits : visited 5 (into_iter (record { l = 3; r = 6 })) ≡ some (3 ∷ 4 ∷ 5 ∷ [])
unfolding visited into_iter next
loop_visits = refl
