-- ===== src/Mm/MapArea/Tests.antt =====
-- An area of two pages over an empty table.
use bitos.Base.{ℕ, refl, arith, []}
use bitos.Mm.PageTableEntry.Fields.{not-is_valid-empty}
use bitos.Mm.PageTable.Tests.{frames, table, table-IsSound}
use bitos.Mm.MapArea
use bitos.Mm.MapArea.{MapArea, framed, take_frame, append_to}
use bitos.Mm.MapArea.Mapping.{Vacant, Fills, map-Fills}

abbrev area : MapArea
area = record {
  vpn_range = record { l = 16; r = 18 };
  data_frames = [];
  map_type = framed;
  map_perm = 6;
}

area-Vacant : (n vpn : ℕ) → Vacant frames table area n vpn
unfolding take_frame
area-Vacant n vpn x lo hi = (refl, ground (arith, not-is_valid-empty))

map-Fills_example : Fills 1 frames table area 2 16 (MapArea.map frames table area)
map-Fills_example =
    map-Fills table-IsSound area (omega arith) (omega arith) refl (omega arith) (area-Vacant 2 16)
      (omega arith)
