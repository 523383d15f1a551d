-- ===== src/Fat32/FsInfo.antt =====
-- `FSInfo` of fat32/src/layout.rs: the sector that counts the free clusters.
use bitos.Base.{ℕ, Bool, ◌&&◌, ◌==◌}
use bitos.Fat32.Volume.{Volume, set_info}

pub record FsInfo : Type 0 where
  pub sector_num : ℕ

unfoldable pub check_lead_signature : FsInfo → Volume → Bool
check_lead_signature f vol = vol.info f.sector_num 0 == 0x41615252

unfoldable pub check_another_signature : FsInfo → Volume → Bool
check_another_signature f vol = vol.info f.sector_num 484 == 0x61417272

unfoldable pub check_signature : FsInfo → Volume → Bool
check_signature f vol = check_lead_signature f vol && check_another_signature f vol

unfoldable pub read_free_clusters : FsInfo → Volume → ℕ
read_free_clusters f vol = vol.info f.sector_num 488

unfoldable pub write_free_clusters : FsInfo → Volume → ℕ → Volume
write_free_clusters f vol free_clusters = set_info vol f.sector_num 488 free_clusters

unfoldable pub first_free_cluster : FsInfo → Volume → ℕ
first_free_cluster f vol = vol.info f.sector_num 492

unfoldable pub write_first_free_cluster : FsInfo → Volume → ℕ → Volume
write_first_free_cluster f vol start_cluster = set_info vol f.sector_num 492 start_cluster
