-- ===== src/Tests/BaseSteps.antt =====
-- The c08 traversal of linked cells on 5 x 4 x 3 cells with one layer of halo cells.
use auto_pas.Prelude.{◌<◌, ◌≡◌, refl, true, Bool, inl, length, arith}
use auto_pas.Mapping.{Index3, three_to_one_d, one_to_three_d}
use auto_pas.Mapping.Bijection.{Fits, volume}
use auto_pas.Traversal.{next_to, c08_traversal, strided, each, counting, c_traversal}
use auto_pas.Traversal.Conflicts.{IsGrid}
use auto_pas.Traversal.Loops.{count}
use auto_pas.LinkedCells.BaseStep.{
  process_cell, cell_at, compute_offsets, process_base_cell, call_of, traverse_particle_pairs,
  entries_at, entry, lookup, cell_offsets,
}
use auto_pas.LinkedCells.BaseStep.Lookup.{cube}
use auto_pas.LinkedCells.BaseStep.Once.{of_pair, each_pair_once}
use auto_pas.LinkedCells.BaseStep.Footprint.{colour_calls_apart}

abbrev block : Index3
block = cell_at 5 4 3

abbrev any : Index3 → Bool
any distance = true

-- One overlap: 14 entries.
offsets_run : length (compute_offsets any (cube 1) block) ≡ 14
unfolding compute_offsets entries_at entry lookup cell_offsets each counting three_to_one_d
offsets_run = refl

block-Fits : Fits block
block-Fits = record {
  pos_x = omega arith;
  pos_y = omega arith;
  pos_z = omega arith;
  small = omega arith;
}

block-IsGrid : IsGrid block (cube 1) (next_to (cube 1))
unfolding next_to
block-IsGrid = record {
  fits = record {
    pos_x = omega arith;
    pos_y = omega arith;
    pos_z = omega arith;
    small = omega arith;
  };
  wide_x = omega arith;
  wide_y = omega arith;
  wide_z = omega arith;
  room_x = omega arith;
  room_y = omega arith;
  room_z = omega arith;
}

each_pair_once_example :
    count
      (of_pair (three_to_one_d (cell_at 1 1 1) block) (three_to_one_d (cell_at 0 2 0) block))
      (traverse_particle_pairs any block (cube 1))
    ≡ 1
each_pair_once_example =
    each_pair_once any 1 block block-Fits block-IsGrid (cell_at 1 1 1) (cell_at 0 2 0)
      (omega arith, omega arith, omega arith) (omega arith, omega arith, omega arith)
      (inl ((omega arith, omega arith), (omega arith, omega arith), (omega arith, omega arith)))

colour_calls_apart_example : (0 < volume block) × (cell_at 0 0 0 ≡ cell_at 0 0 0)
unfolding c08_traversal next_to strided each counting c_traversal compute_offsets entries_at entry
    lookup cell_offsets three_to_one_d process_base_cell call_of one_to_three_d
colour_calls_apart_example =
    colour_calls_apart any 1 block block-Fits block-IsGrid 0 0 (cell_at 0 0 0) (cell_at 0 0 0)
      (process_cell 0) (process_cell 0) (inl refl) (inl refl) (inl refl) (inl refl) refl refl
