-- ===== src/Octree/Direction/Tables.antt =====
-- src/autopas/containers/octree/OctreeDirection.h, the tables. An entry that the source does not
-- assign is zero; a table is the list of its assignments.
use auto_pas.Prelude.{ℕ, Bool, true, false, List, [], ◌∷◌}
use auto_pas.Octree.Direction.Codes.{
  o, l, r, d, u, b, f, oo, ld, lu, lb, lf, rd, ru, rb, rf, db, df, ub, uf, ooo, ldb, ldf, lub, luf,
  rdb, rdf, rub, ruf,
}

abbrev pub adj_table : List (ℕ × List Bool)
adj_table =
    (l, true ∷ true ∷ true ∷ true ∷ false ∷ false ∷ false ∷ false ∷ [])
    ∷ (r, false ∷ false ∷ false ∷ false ∷ true ∷ true ∷ true ∷ true ∷ [])
    ∷ (d, true ∷ true ∷ false ∷ false ∷ true ∷ true ∷ false ∷ false ∷ [])
    ∷ (u, false ∷ false ∷ true ∷ true ∷ false ∷ false ∷ true ∷ true ∷ [])
    ∷ (b, true ∷ false ∷ true ∷ false ∷ true ∷ false ∷ true ∷ false ∷ [])
    ∷ (f, false ∷ true ∷ false ∷ true ∷ false ∷ true ∷ false ∷ true ∷ [])
    ∷ (ld, true ∷ true ∷ false ∷ false ∷ false ∷ false ∷ false ∷ false ∷ [])
    ∷ (lu, false ∷ false ∷ true ∷ true ∷ false ∷ false ∷ false ∷ false ∷ [])
    ∷ (lb, true ∷ false ∷ true ∷ false ∷ false ∷ false ∷ false ∷ false ∷ [])
    ∷ (lf, false ∷ true ∷ false ∷ true ∷ false ∷ false ∷ false ∷ false ∷ [])
    ∷ (rd, false ∷ false ∷ false ∷ false ∷ true ∷ true ∷ false ∷ false ∷ [])
    ∷ (ru, false ∷ false ∷ false ∷ false ∷ false ∷ false ∷ true ∷ true ∷ [])
    ∷ (rb, false ∷ false ∷ false ∷ false ∷ true ∷ false ∷ true ∷ false ∷ [])
    ∷ (rf, false ∷ false ∷ false ∷ false ∷ false ∷ true ∷ false ∷ true ∷ [])
    ∷ (db, true ∷ false ∷ false ∷ false ∷ true ∷ false ∷ false ∷ false ∷ [])
    ∷ (df, false ∷ true ∷ false ∷ false ∷ false ∷ true ∷ false ∷ false ∷ [])
    ∷ (ub, false ∷ false ∷ true ∷ false ∷ false ∷ false ∷ true ∷ false ∷ [])
    ∷ (uf, false ∷ false ∷ false ∷ true ∷ false ∷ false ∷ false ∷ true ∷ [])
    ∷ (ldb, true ∷ false ∷ false ∷ false ∷ false ∷ false ∷ false ∷ false ∷ [])
    ∷ (ldf, false ∷ true ∷ false ∷ false ∷ false ∷ false ∷ false ∷ false ∷ [])
    ∷ (lub, false ∷ false ∷ true ∷ false ∷ false ∷ false ∷ false ∷ false ∷ [])
    ∷ (luf, false ∷ false ∷ false ∷ true ∷ false ∷ false ∷ false ∷ false ∷ [])
    ∷ (rdb, false ∷ false ∷ false ∷ false ∷ true ∷ false ∷ false ∷ false ∷ [])
    ∷ (rdf, false ∷ false ∷ false ∷ false ∷ false ∷ true ∷ false ∷ false ∷ [])
    ∷ (rub, false ∷ false ∷ false ∷ false ∷ false ∷ false ∷ true ∷ false ∷ [])
    ∷ (ruf, false ∷ false ∷ false ∷ false ∷ false ∷ false ∷ false ∷ true ∷ [])
    ∷ []

abbrev pub reflect_table : List (ℕ × List ℕ)
reflect_table =
    (l, rdb ∷ rdf ∷ rub ∷ ruf ∷ ldb ∷ ldf ∷ lub ∷ luf ∷ [])
    ∷ (r, rdb ∷ rdf ∷ rub ∷ ruf ∷ ldb ∷ ldf ∷ lub ∷ luf ∷ [])
    ∷ (d, lub ∷ luf ∷ ldb ∷ ldf ∷ rub ∷ ruf ∷ rdb ∷ rdf ∷ [])
    ∷ (u, lub ∷ luf ∷ ldb ∷ ldf ∷ rub ∷ ruf ∷ rdb ∷ rdf ∷ [])
    ∷ (b, ldf ∷ ldb ∷ luf ∷ lub ∷ rdf ∷ rdb ∷ ruf ∷ rub ∷ [])
    ∷ (f, ldf ∷ ldb ∷ luf ∷ lub ∷ rdf ∷ rdb ∷ ruf ∷ rub ∷ [])
    ∷ (ld, rub ∷ ruf ∷ rdb ∷ rdf ∷ lub ∷ luf ∷ ldb ∷ ldf ∷ [])
    ∷ (lu, rub ∷ ruf ∷ rdb ∷ rdf ∷ lub ∷ luf ∷ ldb ∷ ldf ∷ [])
    ∷ (lb, rdf ∷ rdb ∷ ruf ∷ rub ∷ ldf ∷ ldb ∷ luf ∷ lub ∷ [])
    ∷ (lf, rdf ∷ rdb ∷ ruf ∷ rub ∷ ldf ∷ ldb ∷ luf ∷ lub ∷ [])
    ∷ (rd, rub ∷ ruf ∷ rdb ∷ rdf ∷ lub ∷ luf ∷ ldb ∷ ldf ∷ [])
    ∷ (ru, rub ∷ ruf ∷ rdb ∷ rdf ∷ lub ∷ luf ∷ ldb ∷ ldf ∷ [])
    ∷ (rb, rdf ∷ rdb ∷ ruf ∷ rub ∷ ldf ∷ ldb ∷ luf ∷ lub ∷ [])
    ∷ (rf, rdf ∷ rdb ∷ ruf ∷ rub ∷ ldf ∷ ldb ∷ luf ∷ lub ∷ [])
    ∷ (db, luf ∷ lub ∷ ldf ∷ ldb ∷ ruf ∷ rub ∷ rdf ∷ rdb ∷ [])
    ∷ (df, luf ∷ lub ∷ ldf ∷ ldb ∷ ruf ∷ rub ∷ rdf ∷ rdb ∷ [])
    ∷ (ub, luf ∷ lub ∷ ldf ∷ ldb ∷ ruf ∷ rub ∷ rdf ∷ rdb ∷ [])
    ∷ (uf, luf ∷ lub ∷ ldf ∷ ldb ∷ ruf ∷ rub ∷ rdf ∷ rdb ∷ [])
    ∷ (ldb, ruf ∷ rub ∷ rdf ∷ rdb ∷ luf ∷ lub ∷ ldf ∷ ldb ∷ [])
    ∷ (ldf, ruf ∷ rub ∷ rdf ∷ rdb ∷ luf ∷ lub ∷ ldf ∷ ldb ∷ [])
    ∷ (lub, ruf ∷ rub ∷ rdf ∷ rdb ∷ luf ∷ lub ∷ ldf ∷ ldb ∷ [])
    ∷ (luf, ruf ∷ rub ∷ rdf ∷ rdb ∷ luf ∷ lub ∷ ldf ∷ ldb ∷ [])
    ∷ (rdb, ruf ∷ rub ∷ rdf ∷ rdb ∷ luf ∷ lub ∷ ldf ∷ ldb ∷ [])
    ∷ (rdf, ruf ∷ rub ∷ rdf ∷ rdb ∷ luf ∷ lub ∷ ldf ∷ ldb ∷ [])
    ∷ (rub, ruf ∷ rub ∷ rdf ∷ rdb ∷ luf ∷ lub ∷ ldf ∷ ldb ∷ [])
    ∷ (ruf, ruf ∷ rub ∷ rdf ∷ rdb ∷ luf ∷ lub ∷ ldf ∷ ldb ∷ [])
    ∷ []

abbrev pub common_face_table : List (ℕ × List ℕ)
common_face_table =
    (ld, o ∷ o ∷ l ∷ l ∷ d ∷ d ∷ o ∷ o ∷ [])
    ∷ (lu, l ∷ l ∷ o ∷ o ∷ o ∷ o ∷ u ∷ u ∷ [])
    ∷ (lb, o ∷ l ∷ o ∷ l ∷ b ∷ o ∷ b ∷ o ∷ [])
    ∷ (lf, l ∷ o ∷ l ∷ o ∷ o ∷ f ∷ o ∷ f ∷ [])
    ∷ (rd, d ∷ d ∷ o ∷ o ∷ o ∷ o ∷ r ∷ r ∷ [])
    ∷ (ru, o ∷ o ∷ u ∷ u ∷ r ∷ r ∷ o ∷ o ∷ [])
    ∷ (rb, b ∷ o ∷ b ∷ o ∷ o ∷ r ∷ o ∷ r ∷ [])
    ∷ (rf, o ∷ f ∷ o ∷ f ∷ r ∷ o ∷ r ∷ o ∷ [])
    ∷ (db, o ∷ d ∷ b ∷ o ∷ o ∷ d ∷ b ∷ o ∷ [])
    ∷ (df, d ∷ o ∷ o ∷ f ∷ d ∷ o ∷ o ∷ f ∷ [])
    ∷ (ub, b ∷ o ∷ o ∷ u ∷ b ∷ o ∷ o ∷ u ∷ [])
    ∷ (uf, o ∷ f ∷ u ∷ o ∷ o ∷ f ∷ u ∷ o ∷ [])
    ∷ (ldb, o ∷ o ∷ o ∷ l ∷ o ∷ d ∷ b ∷ o ∷ [])
    ∷ (ldf, o ∷ o ∷ l ∷ o ∷ d ∷ o ∷ o ∷ f ∷ [])
    ∷ (lub, o ∷ l ∷ o ∷ o ∷ b ∷ o ∷ o ∷ u ∷ [])
    ∷ (luf, l ∷ o ∷ o ∷ o ∷ o ∷ f ∷ u ∷ o ∷ [])
    ∷ (rdb, o ∷ d ∷ b ∷ o ∷ o ∷ o ∷ o ∷ r ∷ [])
    ∷ (rdf, d ∷ o ∷ o ∷ f ∷ o ∷ o ∷ r ∷ o ∷ [])
    ∷ (rub, b ∷ o ∷ o ∷ u ∷ o ∷ r ∷ o ∷ o ∷ [])
    ∷ (ruf, o ∷ f ∷ u ∷ o ∷ r ∷ o ∷ o ∷ o ∷ [])
    ∷ []

abbrev pub common_edge_table : List (ℕ × List ℕ)
common_edge_table =
    (ldb, oo ∷ ld ∷ lb ∷ oo ∷ db ∷ oo ∷ oo ∷ oo ∷ [])
    ∷ (ldf, ld ∷ oo ∷ oo ∷ lf ∷ oo ∷ df ∷ oo ∷ oo ∷ [])
    ∷ (lub, lb ∷ oo ∷ oo ∷ lu ∷ oo ∷ oo ∷ ub ∷ oo ∷ [])
    ∷ (luf, oo ∷ lf ∷ lu ∷ oo ∷ oo ∷ oo ∷ oo ∷ uf ∷ [])
    ∷ (rdb, db ∷ oo ∷ oo ∷ oo ∷ oo ∷ rd ∷ rb ∷ oo ∷ [])
    ∷ (rdf, oo ∷ df ∷ oo ∷ oo ∷ rd ∷ oo ∷ oo ∷ rf ∷ [])
    ∷ (rub, oo ∷ oo ∷ ub ∷ oo ∷ rb ∷ oo ∷ oo ∷ ru ∷ [])
    ∷ (ruf, oo ∷ oo ∷ oo ∷ uf ∷ oo ∷ rf ∷ ru ∷ oo ∷ [])
    ∷ []

abbrev pub opposite_direction_table : List (ℕ × ℕ)
opposite_direction_table =
    (l, r)
    ∷ (r, l)
    ∷ (d, u)
    ∷ (u, d)
    ∷ (b, f)
    ∷ (f, b)
    ∷ (ld, ru)
    ∷ (lu, rd)
    ∷ (lb, rf)
    ∷ (lf, rb)
    ∷ (rd, lu)
    ∷ (ru, ld)
    ∷ (rb, lf)
    ∷ (rf, lb)
    ∷ (db, uf)
    ∷ (df, ub)
    ∷ (ub, df)
    ∷ (uf, db)
    ∷ (ldb, ruf)
    ∷ (ldf, rub)
    ∷ (lub, rdf)
    ∷ (luf, rdb)
    ∷ (rdb, luf)
    ∷ (rdf, lub)
    ∷ (rub, ldf)
    ∷ (ruf, ldb)
    ∷ []

abbrev pub allowed_directions_table : List (ℕ × List ℕ)
allowed_directions_table =
    (l, ldb ∷ ldf ∷ lub ∷ luf ∷ ooo ∷ [])
    ∷ (r, rdb ∷ rdf ∷ rub ∷ ruf ∷ ooo ∷ [])
    ∷ (d, ldb ∷ ldf ∷ rdb ∷ rdf ∷ ooo ∷ [])
    ∷ (u, lub ∷ luf ∷ rub ∷ ruf ∷ ooo ∷ [])
    ∷ (b, ldb ∷ lub ∷ rdb ∷ rub ∷ ooo ∷ [])
    ∷ (f, ldf ∷ luf ∷ rdf ∷ ruf ∷ ooo ∷ [])
    ∷ (ld, ldb ∷ ldf ∷ ooo ∷ ooo ∷ ooo ∷ [])
    ∷ (lu, lub ∷ luf ∷ ooo ∷ ooo ∷ ooo ∷ [])
    ∷ (lb, ldb ∷ lub ∷ ooo ∷ ooo ∷ ooo ∷ [])
    ∷ (lf, ldf ∷ luf ∷ ooo ∷ ooo ∷ ooo ∷ [])
    ∷ (rd, rdb ∷ rdf ∷ ooo ∷ ooo ∷ ooo ∷ [])
    ∷ (ru, rub ∷ ruf ∷ ooo ∷ ooo ∷ ooo ∷ [])
    ∷ (rb, rdb ∷ rub ∷ ooo ∷ ooo ∷ ooo ∷ [])
    ∷ (rf, rdf ∷ ruf ∷ ooo ∷ ooo ∷ ooo ∷ [])
    ∷ (db, ldb ∷ rdb ∷ ooo ∷ ooo ∷ ooo ∷ [])
    ∷ (df, ldf ∷ rdf ∷ ooo ∷ ooo ∷ ooo ∷ [])
    ∷ (ub, lub ∷ rub ∷ ooo ∷ ooo ∷ ooo ∷ [])
    ∷ (uf, luf ∷ ruf ∷ ooo ∷ ooo ∷ ooo ∷ [])
    ∷ (ldb, ldb ∷ ooo ∷ ooo ∷ ooo ∷ ooo ∷ [])
    ∷ (ldf, ldf ∷ ooo ∷ ooo ∷ ooo ∷ ooo ∷ [])
    ∷ (lub, lub ∷ ooo ∷ ooo ∷ ooo ∷ ooo ∷ [])
    ∷ (luf, luf ∷ ooo ∷ ooo ∷ ooo ∷ ooo ∷ [])
    ∷ (rdb, rdb ∷ ooo ∷ ooo ∷ ooo ∷ ooo ∷ [])
    ∷ (rdf, rdf ∷ ooo ∷ ooo ∷ ooo ∷ ooo ∷ [])
    ∷ (rub, rub ∷ ooo ∷ ooo ∷ ooo ∷ ooo ∷ [])
    ∷ (ruf, ruf ∷ ooo ∷ ooo ∷ ooo ∷ ooo ∷ [])
    ∷ []
