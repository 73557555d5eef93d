-- ===== src/Ranges/Tests.antt =====
-- Runs of the range theorems at concrete inputs.
use openipc_tftp.Common.{ℕ, ◌≡◌, refl, List, [], ◌∷◌, true}
use openipc_tftp.Ranges.{
  Range, coalesce_ranges, merge_sorted, sorted, insert, range_leb, merge, append_current,
}
use openipc_tftp.Ranges.Covers.{covers}
use openipc_tftp.Ranges.Coalesced.{apart, coalesce_ranges_lem}

abbrev unsorted : List Range
unsorted =
    record { addr = 0x3000; size = 0x800 }
    ∷ record { addr = 0x1000; size = 0x800 }
    ∷ record { addr = 0x1800; size = 0x800 }
    ∷ []

two_areas :
    coalesce_ranges unsorted
    ≡ record { addr = 0x1000; size = 0x1000 } ∷ record { addr = 0x3000; size = 0x800 } ∷ []
unfolding coalesce_ranges merge_sorted sorted insert range_leb merge append_current
two_areas = refl

coalesce_ranges_lem_example :
    ((x : ℕ) → covers x (coalesce_ranges unsorted) ≡ covers x unsorted)
    × (apart (coalesce_ranges unsorted) ≡ true)
coalesce_ranges_lem_example = coalesce_ranges_lem unsorted
