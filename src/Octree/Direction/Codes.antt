-- ===== src/Octree/Direction/Codes.antt =====
-- src/autopas/containers/octree/OctreeDirection.h, first part: the codes of faces, edges and
-- vertices, and the tables over them. `Any` of the source is `unsigned int`: here it is ℕ.
use Prim.Native.Nat.{bit_or}
use auto_pas.Prelude.{ℕ, ◌*◌, List, [], ◌∷◌}

-- `O` is omega, the unknown face.
abbrev pub o : ℕ
o = 0

abbrev pub l : ℕ
l = 1

abbrev pub r : ℕ
r = 2

abbrev pub d : ℕ
d = 3

abbrev pub u : ℕ
u = 4

abbrev pub b : ℕ
b = 5

abbrev pub f : ℕ
f = 6

-- `f1 << 3 | f2` and `f1 << 6 | f2 << 3 | f3`.
abbrev pub build_edge : ℕ → ℕ → ℕ
build_edge f1 f2 = bit_or (f1 * 8) f2

abbrev pub build_vertex : ℕ → ℕ → ℕ → ℕ
build_vertex f1 f2 f3 = bit_or (bit_or (f1 * 64) (f2 * 8)) f3

abbrev pub oo : ℕ
oo = 0

abbrev pub ld : ℕ
ld = build_edge l d

abbrev pub lu : ℕ
lu = build_edge l u

abbrev pub lb : ℕ
lb = build_edge l b

abbrev pub lf : ℕ
lf = build_edge l f

abbrev pub rd : ℕ
rd = build_edge r d

abbrev pub ru : ℕ
ru = build_edge r u

abbrev pub rb : ℕ
rb = build_edge r b

abbrev pub rf : ℕ
rf = build_edge r f

abbrev pub db : ℕ
db = build_edge d b

abbrev pub df : ℕ
df = build_edge d f

abbrev pub ub : ℕ
ub = build_edge u b

abbrev pub uf : ℕ
uf = build_edge u f

abbrev pub ooo : ℕ
ooo = 0

abbrev pub ldb : ℕ
ldb = build_vertex l d b

abbrev pub ldf : ℕ
ldf = build_vertex l d f

abbrev pub lub : ℕ
lub = build_vertex l u b

abbrev pub luf : ℕ
luf = build_vertex l u f

abbrev pub rdb : ℕ
rdb = build_vertex r d b

abbrev pub rdf : ℕ
rdf = build_vertex r d f

abbrev pub rub : ℕ
rub = build_vertex r u b

abbrev pub ruf : ℕ
ruf = build_vertex r u f

abbrev pub faces : List ℕ
faces = l ∷ r ∷ d ∷ u ∷ b ∷ f ∷ []

abbrev pub edges : List ℕ
edges = ld ∷ lu ∷ lb ∷ lf ∷ rd ∷ ru ∷ rb ∷ rf ∷ db ∷ df ∷ ub ∷ uf ∷ []

abbrev pub vertices : List ℕ
vertices = ldb ∷ ldf ∷ lub ∷ luf ∷ rdb ∷ rdf ∷ rub ∷ ruf ∷ []
