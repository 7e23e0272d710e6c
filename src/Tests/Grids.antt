-- ===== src/Tests/Grids.antt =====
-- A block of 5 x 4 x 3 cells with one cell of overlap.
use auto_pas.Prelude.{◌<◌, ◌≡◌, refl, false, arith}
use auto_pas.Mapping.{Index3, three_to_one_d, one_to_three_d}
use auto_pas.Mapping.Bijection.{
  Inside, Fits, volume, three_to_one_d-one_to_three_d, one_to_three_d-three_to_one_d,
}
use auto_pas.Traversal.{
  strided, origin, next_to, c_traversal, c01_traversal, c04_traversal, c08_traversal, c18_stride,
  c18_traversal,
}
use auto_pas.Traversal.Interior.{unit_stride, visits-c01_traversal}
use auto_pas.Traversal.Coverage.{Runs, visits, colour_of, visits-c_traversal}
use auto_pas.Traversal.Conflicts.{
  IsGrid, visits-c08_traversal, c08_no_conflict, c18_no_conflict, c04_no_conflict,
}

abbrev cells : Index3
cells = record { x = 5; y = 4; z = 3 }

abbrev one : Index3
one = record { x = 1; y = 1; z = 1 }

cells-Fits : Fits cells
cells-Fits = record {
  pos_x = omega arith;
  pos_y = omega arith;
  pos_z = omega arith;
  small = omega arith;
}

flat_runs : three_to_one_d (record { x = 2; y = 3; z = 1 }) cells ≡ 37
unfolding three_to_one_d
flat_runs = refl

strided_runs : strided 9 1 9 3 ≡ strided 4 1 8 3
unfolding strided
strided_runs = refl

three_to_one_d-one_to_three_d_example :
    Inside (one_to_three_d 37 cells) cells × (three_to_one_d (one_to_three_d 37 cells) cells ≡ 37)
three_to_one_d-one_to_three_d_example =
    three_to_one_d-one_to_three_d 37 cells cells-Fits (omega arith)

one_to_three_d-three_to_one_d_example :
    (three_to_one_d (record { x = 2; y = 3; z = 1 }) cells < volume cells)
    × (one_to_three_d (three_to_one_d (record { x = 2; y = 3; z = 1 }) cells) cells
        ≡ record { x = 2; y = 3; z = 1 })
one_to_three_d-three_to_one_d_example =
    one_to_three_d-three_to_one_d (record { x = 2; y = 3; z = 1 }) cells cells-Fits (omega arith)

two-Fits : Fits (next_to one)
unfolding next_to
two-Fits = record {
  pos_x = omega arith;
  pos_y = omega arith;
  pos_z = omega arith;
  small = omega arith;
}

blocks-Runs : Runs cells (next_to one) origin
unfolding next_to
blocks-Runs = record {
  fits = two-Fits;
  end_x = omega arith;
  end_y = omega arith;
  end_z = omega arith;
  offset_x = omega arith;
  offset_y = omega arith;
  offset_z = omega arith;
}

visits-c_traversal_example :
    visits 3 (record { x = 3; y = 1; z = 2 }) (c_traversal cells (next_to one) origin) ≡ 1
unfolding colour_of three_to_one_d next_to
visits-c_traversal_example =
    visits-c_traversal cells (next_to one) origin blocks-Runs 3 (record { x = 3; y = 1; z = 2 })

cells-IsGrid : IsGrid cells one (next_to one)
cells-IsGrid = record {
  fits = two-Fits;
  wide_x = omega arith;
  wide_y = omega arith;
  wide_z = omega arith;
  room_x = omega arith;
  room_y = omega arith;
  room_z = omega arith;
}

visits-c08_traversal_example :
    visits 3 (record { x = 3; y = 1; z = 0 }) (c08_traversal cells one) ≡ 1
unfolding colour_of three_to_one_d next_to
visits-c08_traversal_example =
    visits-c08_traversal cells one cells-IsGrid 3 (record { x = 3; y = 1; z = 0 })

abbrev base : Index3
base = record { x = 1; y = 1; z = 0 }

c08_no_conflict_example : base ≡ base
unfolding c08_traversal next_to strided one_to_three_d
c08_no_conflict_example =
    c08_no_conflict cells one cells-IsGrid 3 base base (record { x = 2; y = 2; z = 1 })
      (omega arith) (omega arith) (omega arith) (omega arith)

three-Fits : Fits (c18_stride one)
unfolding c18_stride
three-Fits = record {
  pos_x = omega arith;
  pos_y = omega arith;
  pos_z = omega arith;
  small = omega arith;
}

c18-IsGrid : IsGrid cells one (c18_stride one)
c18-IsGrid = record {
  fits = three-Fits;
  wide_x = omega arith;
  wide_y = omega arith;
  wide_z = omega arith;
  room_x = omega arith;
  room_y = omega arith;
  room_z = omega arith;
}

c18_no_conflict_example : base ≡ base
unfolding c18_traversal c18_stride strided one_to_three_d
c18_no_conflict_example =
    c18_no_conflict false cells one c18-IsGrid 4 base base (record { x = 0; y = 2; z = 1 })
      (omega arith) (omega arith) (omega arith) (omega arith)

row-Fits : Fits (record (next_to one) { x = 1 })
unfolding next_to
row-Fits = record {
  pos_x = omega arith;
  pos_y = omega arith;
  pos_z = omega arith;
  small = omega arith;
}

c04-IsGrid : IsGrid cells one (record (next_to one) { x = 1 })
c04-IsGrid = record {
  fits = row-Fits;
  wide_x = omega arith;
  wide_y = omega arith;
  wide_z = omega arith;
  room_x = omega arith;
  room_y = omega arith;
  room_z = omega arith;
}

c04_no_conflict_example : (base.y ≡ base.y) × (base.z ≡ base.z)
unfolding c04_traversal next_to strided one_to_three_d
c04_no_conflict_example =
    c04_no_conflict cells one c04-IsGrid 1 base (record base { x = 2 })
      (record { x = 2; y = 2; z = 1 }) (omega arith) (omega arith) (omega arith) (omega arith)

unit_stride-IsGrid : IsGrid cells one unit_stride
unit_stride-IsGrid = record {
  fits = record {
    pos_x = omega arith;
    pos_y = omega arith;
    pos_z = omega arith;
    small = omega arith;
  };
  wide_x = omega arith;
  wide_y = omega arith;
  wide_z = omega arith;
  room_x = omega arith;
  room_y = omega arith;
  room_z = omega arith;
}

visits-c01_traversal_example :
    visits 0 (record { x = 3; y = 1; z = 1 }) (c01_traversal cells one) ≡ 1
visits-c01_traversal_example =
    visits-c01_traversal cells one unit_stride-IsGrid 0 (record { x = 3; y = 1; z = 1 })
