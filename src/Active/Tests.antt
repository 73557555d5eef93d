-- ===== src/Active/Tests.antt =====
-- Runs of the search for changing ranges at concrete inputs.
use openipc_tftp.Common.{◌≡◌, refl, List, [], ◌∷◌, ok, arith, true}
use openipc_tftp.Common.Text.{codes, lower}
use openipc_tftp.Ranges.{Range}
use openipc_tftp.Tasks.Always.{Always}
use openipc_tftp.Active.{Search, crc_of, find_active}
use openipc_tftp.Active.Within.{IsFound, find_active-IsFound}

little_endian : crc_of true (codes "1122334") ≡ ok 0x34231201
unfolding crc_of lower
little_endian = refl

abbrev search : Search
search = record {
  rambase = codes "${loadaddr}";
  min_chunk = 0x800;
  split_parts = 2;
  max_ranges = 6;
}

abbrev two_areas : List Range
two_areas =
    record { addr = 0x42000000; size = 0x1000000 }
    ∷ record { addr = 0x43000000; size = 0x1000000 }
    ∷ []

find_active-IsFound_example : Always (IsFound two_areas) (find_active search 0x1000001 two_areas)
find_active-IsFound_example =
    find_active-IsFound search (omega arith) 0x1000001 two_areas (omega arith, (omega arith, tt))
