-- ===== src/Traversal/Interior.antt =====
-- src/autopas/containers/cellPairTraversals/C01BasedTraversal.h: the base cells of a traversal with
-- one colour.
use auto_pas.Prelude.{
  ℕ, ◌+◌, ◌-◌, ◌≤◌, ◌<◌, ◌≡◌, ◌∙◌, Bool, ◌&&◌, ltb, leb, ◌==◌, word, sub_word, arith,
}
use auto_pas.Mapping.{Index3}
use auto_pas.Traversal.{inner_end, c01_traversal}
use auto_pas.Traversal.Loops.{bit}
use auto_pas.Traversal.Coverage.{Runs, visits, colour_of, colour_of-lt, visits-c_traversal}
use auto_pas.Traversal.Conflicts.{IsGrid}

abbrev pub unit_stride : Index3
unit_stride = record { x = 1; y = 1; z = 1 }

unit_stride_lem :
    (dims overlap : Index3)
    → IsGrid dims overlap unit_stride
    → Runs (inner_end dims overlap) unit_stride overlap
unfolding inner_end
unit_stride_lem dims overlap g = record {
  fits = g.fits;
  end_x = omega arith;
  end_y = omega arith;
  end_z = omega arith;
  offset_x = omega arith;
  offset_y = omega arith;
  offset_z = omega arith;
}

between_lem :
    (v d o : ℕ) → o ≤ d → d < word → (leb o v && ltb v (sub_word d o)) ≡ (leb o v && ltb (v + o) d)
between_lem v d o h k = let e : sub_word d o ≡ d - o = omega arith in rw e (ground arith)

one_colour : (b : Bool) (c k : ℕ) → k < 1 → bit (b && c == k) ≡ bit (b && c == 0)
one_colour b c k h = ground arith

-- On a grid whose sizes fit a word, c01 calls its body exactly once for every cell with `overlap`
-- cells before and behind it on each axis, under the one colour 0, and for no other cell.
pub visits-c01_traversal :
    (dims overlap : Index3)
    → IsGrid dims overlap unit_stride
    → (c : ℕ) (p : Index3)
    → visits c p (c01_traversal dims overlap)
      ≡ bit (
          ((leb overlap.x p.x && ltb (p.x + overlap.x) dims.x)
            && ((leb overlap.y p.y && ltb (p.y + overlap.y) dims.y)
                && (leb overlap.z p.z && ltb (p.z + overlap.z) dims.z)))
          && c == 0)
unfolding c01_traversal inner_end
visits-c01_traversal dims overlap g c p =
    let runs = unit_stride_lem dims overlap g in
    visits-c_traversal (inner_end dims overlap) unit_stride overlap runs c p
    ∙ rw
        (
          between_lem p.x dims.x overlap.x g.wide_x (omega arith),
          between_lem p.y dims.y overlap.y g.wide_y (omega arith),
          between_lem p.z dims.z overlap.z g.wide_z (omega arith),
        )
        (one_colour _ c (colour_of unit_stride overlap p)
          (colour_of-lt (inner_end dims overlap) unit_stride overlap runs p))
