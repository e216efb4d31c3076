-- ===== src/Tests/Windows.antt =====
-- A window of flags moved to the right.
use nexus_embedded.Base.{◌≡◌, refl, arith, true, [], ◌∷◌}
use nexus_embedded.Util.Bitset.{bitset_init}
use nexus_embedded.Util.Window.{Window, set_id_flag}
use nexus_embedded.Util.Window.Laws.{IsWindow}
use nexus_embedded.Util.Window.Set.{IsFlagSet, set_id_flag_lem}

abbrev sixteen : Window
sixteen = record {
  center_index = 100;
  flags = bitset_init (1 ∷ 129 ∷ []) 2;
  flags_below = 15;
  flags_above = 8;
}

sixteen-IsWindow : IsWindow sixteen
sixteen-IsWindow = record {
  bytes_enough = omega arith;
  counted = omega arith;
  short = omega arith;
  small = omega arith;
  are_bytes = omega arith;
  above_byte = omega arith;
  low = omega arith;
  high = omega arith;
}

set_id_flag_lem_example :
    ((set_id_flag sixteen 103).0 ≡ true)
    × IsFlagSet sixteen sixteen-IsWindow 103 (set_id_flag sixteen 103).1
set_id_flag_lem_example = set_id_flag_lem sixteen sixteen-IsWindow 103 refl (omega arith)
