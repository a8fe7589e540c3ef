-- ===== src/PageTable/Tests.antt =====
-- Blocks of four pages, of which the update takes the last of one, the next whole and the first of a
-- third.
use loongson_gsgpu_dkms_modu.Base.{true, false, none}
use loongson_gsgpu_dkms_modu.PageTable.{Flags, Tables, Params}

abbrev params : Params
params = record { block_size = 2; kmaps = λ t. true; kmaps_dir = λ t. true; map_gart = none }

abbrev flags : Flags
flags = record { huge_page = false; access = 9 }

abbrev empty : Tables
empty = record {
  ptes = λ t i. record { addr = 0; flags = record { huge_page = false; access = 0 } };
  pdes = λ t. record { addr = 0; flags = record { huge_page = false; access = 0 } };
  huge = λ t. false;
  relocated = λ t. false;
}
