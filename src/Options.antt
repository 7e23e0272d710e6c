-- ===== src/Options.antt =====
-- src/autopas/options/ContainerOption.h, TraversalOption.h and LoadEstimatorOption.h, and which of
-- these options fit together: src/autopas/containers/CompatibleTraversals.h and
-- CompatibleLoadEstimators.h. An option is the number of its enumerator, a set a list of its elements
-- on whose order nothing depends.
pub mod Compatible
use auto_pas.Prelude.{
  ℕ, Bool, true, false, ◌||◌, ◌==◌, if◌then◌else◌, Option, none, some, List, [], ◌∷◌,
}

-- `ContainerOption::Value`.
abbrev pub direct_sum : ℕ
direct_sum = 0

abbrev pub linked_cells : ℕ
linked_cells = 1

abbrev pub linked_cells_references : ℕ
linked_cells_references = 2

abbrev pub var_verlet_lists_as_build : ℕ
var_verlet_lists_as_build = 3

abbrev pub verlet_cluster_lists : ℕ
verlet_cluster_lists = 4

abbrev pub verlet_lists : ℕ
verlet_lists = 5

abbrev pub verlet_lists_cells : ℕ
verlet_lists_cells = 6

abbrev pub pairwise_verlet_lists : ℕ
pairwise_verlet_lists = 7

abbrev pub octree : ℕ
octree = 8

-- `TraversalOption::Value`.
abbrev pub ds_sequential : ℕ
ds_sequential = 0

abbrev pub lc_c01 : ℕ
lc_c01 = 1

abbrev pub lc_c01_combined_soa : ℕ
lc_c01_combined_soa = 2

abbrev pub lc_c04 : ℕ
lc_c04 = 3

abbrev pub lc_c04_hcp : ℕ
lc_c04_hcp = 4

abbrev pub lc_c04_combined_soa : ℕ
lc_c04_combined_soa = 5

abbrev pub lc_c08 : ℕ
lc_c08 = 6

abbrev pub lc_c18 : ℕ
lc_c18 = 7

abbrev pub lc_sliced : ℕ
lc_sliced = 8

abbrev pub lc_sliced_balanced : ℕ
lc_sliced_balanced = 9

abbrev pub lc_sliced_c02 : ℕ
lc_sliced_c02 = 10

abbrev pub ot_c01 : ℕ
ot_c01 = 11

abbrev pub ot_c18 : ℕ
ot_c18 = 12

abbrev pub vcl_c01_balanced : ℕ
vcl_c01_balanced = 13

abbrev pub vcl_c06 : ℕ
vcl_c06 = 14

abbrev pub vcl_cluster_iteration : ℕ
vcl_cluster_iteration = 15

abbrev pub vcl_sliced : ℕ
vcl_sliced = 16

abbrev pub vcl_sliced_balanced : ℕ
vcl_sliced_balanced = 17

abbrev pub vcl_sliced_c02 : ℕ
vcl_sliced_c02 = 18

abbrev pub vl_list_iteration : ℕ
vl_list_iteration = 19

abbrev pub vlc_c01 : ℕ
vlc_c01 = 20

abbrev pub vlc_c18 : ℕ
vlc_c18 = 21

abbrev pub vlc_sliced : ℕ
vlc_sliced = 22

abbrev pub vlc_sliced_balanced : ℕ
vlc_sliced_balanced = 23

abbrev pub vlc_sliced_c02 : ℕ
vlc_sliced_c02 = 24

abbrev pub vlp_c01 : ℕ
vlp_c01 = 25

abbrev pub vlp_c18 : ℕ
vlp_c18 = 26

abbrev pub vlp_sliced : ℕ
vlp_sliced = 27

abbrev pub vlp_sliced_balanced : ℕ
vlp_sliced_balanced = 28

abbrev pub vlp_sliced_c02 : ℕ
vlp_sliced_c02 = 29

abbrev pub vlp_c08 : ℕ
vlp_c08 = 30

abbrev pub vvl_as_built : ℕ
vvl_as_built = 31

-- `LoadEstimatorOption::Value`.
abbrev pub load_estimator_none : ℕ
load_estimator_none = 0

abbrev pub squared_particles_per_cell : ℕ
squared_particles_per_cell = 1

abbrev pub neighbor_list_length : ℕ
neighbor_list_length = 2

abbrev pub all_ds_compatible_traversals : List ℕ
all_ds_compatible_traversals = ds_sequential ∷ []

abbrev pub all_lc_compatible_traversals : List ℕ
all_lc_compatible_traversals =
    lc_c01 ∷ lc_c08 ∷ lc_c18 ∷ lc_sliced ∷ lc_sliced_balanced ∷ lc_c01_combined_soa ∷ lc_c04
    ∷ lc_c04_combined_soa ∷ lc_c04_hcp ∷ lc_sliced_c02 ∷ []

abbrev pub all_rlc_compatible_traversals : List ℕ
all_rlc_compatible_traversals = all_lc_compatible_traversals

abbrev pub all_vcl_compatible_traversals : List ℕ
all_vcl_compatible_traversals =
    vcl_cluster_iteration ∷ vcl_c06 ∷ vcl_c01_balanced ∷ vcl_sliced ∷ vcl_sliced_balanced
    ∷ vcl_sliced_c02 ∷ []

abbrev pub all_vl_compatible_traversals : List ℕ
all_vl_compatible_traversals = vl_list_iteration ∷ []

abbrev pub all_vlc_compatible_traversals : List ℕ
all_vlc_compatible_traversals =
    vlc_sliced ∷ vlc_c18 ∷ vlc_c01 ∷ vlc_sliced_c02 ∷ vlc_sliced_balanced ∷ []

abbrev pub all_var_vl_as_build_compatible_traversals : List ℕ
all_var_vl_as_build_compatible_traversals = vvl_as_built ∷ []

abbrev pub all_vlp_compatible_traversals : List ℕ
all_vlp_compatible_traversals =
    vlp_sliced ∷ vlp_c18 ∷ vlp_c01 ∷ vlp_sliced_c02 ∷ vlp_sliced_balanced ∷ vlp_c08 ∷ []

abbrev pub all_ot_compatible_traversals : List ℕ
all_ot_compatible_traversals = ot_c18 ∷ ot_c01 ∷ []

-- `none` is the exception for an unknown container.
unfoldable pub all_compatible_traversals : ℕ → Option (List ℕ)
all_compatible_traversals k =
    if k == linked_cells
    then some all_lc_compatible_traversals
    else (if k == direct_sum
        then some all_ds_compatible_traversals
        else (if k == verlet_cluster_lists
            then some all_vcl_compatible_traversals
            else (if k == verlet_lists
                then some all_vl_compatible_traversals
                else (if k == verlet_lists_cells
                    then some all_vlc_compatible_traversals
                    else (if k == var_verlet_lists_as_build
                        then some all_var_vl_as_build_compatible_traversals
                        else (if k == linked_cells_references
                            then some all_rlc_compatible_traversals
                            else (if k == pairwise_verlet_lists
                                then some all_vlp_compatible_traversals
                                else (if k == octree
                                    then some all_ot_compatible_traversals
                                    else none))))))))

unfoldable pub contains_option : List ℕ → ℕ → Bool
contains_option [] k = false
contains_option (x ∷ xs) k = x == k || contains_option xs k

-- `ContainerOption::getAllOptions`.
abbrev pub all_container_options : List ℕ
all_container_options =
    direct_sum ∷ linked_cells ∷ linked_cells_references ∷ verlet_lists ∷ verlet_lists_cells
    ∷ verlet_cluster_lists ∷ var_verlet_lists_as_build ∷ pairwise_verlet_lists ∷ octree ∷ []

abbrev pub fits_container : ℕ → ℕ → Bool
fits_container traversal k = elim (all_compatible_traversals k) [
  | none ↦ false
  | some ts ↦ contains_option ts traversal
]

abbrev pub collect_containers : ℕ → List ℕ → List ℕ
collect_containers traversal [] = []
collect_containers traversal (k ∷ ks) =
    let rest = collect_containers traversal ks in
    if fits_container traversal k then k ∷ rest else rest

unfoldable pub all_compatible_containers : ℕ → List ℕ
unfolding contains_option all_compatible_traversals
all_compatible_containers traversal = collect_containers traversal all_container_options

unfoldable pub all_compatible_load_estimators : ℕ → List ℕ
all_compatible_load_estimators k =
    if k == linked_cells
    then load_estimator_none ∷ squared_particles_per_cell ∷ []
    else (if k == verlet_lists_cells
        then load_estimator_none ∷ squared_particles_per_cell ∷ neighbor_list_length ∷ []
        else (if k == verlet_cluster_lists
            then load_estimator_none ∷ neighbor_list_length ∷ []
            else []))

unfoldable pub uses_load_estimator : ℕ → Bool
uses_load_estimator t =
    t == lc_sliced_balanced || t == vcl_sliced_balanced || t == vlc_sliced_balanced

-- `std::set_intersection`.
unfoldable pub intersection : List ℕ → List ℕ → List ℕ
unfolding contains_option
intersection [] ys = []
intersection (x ∷ xs) ys =
    let rest = intersection xs ys in if contains_option ys x then x ∷ rest else rest

abbrev pub or_none : List ℕ → List ℕ
or_none [] = load_estimator_none ∷ []
or_none (x ∷ xs) = x ∷ xs

unfoldable pub get_applicable_load_estimators : ℕ → ℕ → List ℕ → List ℕ
unfolding uses_load_estimator intersection all_compatible_load_estimators
get_applicable_load_estimators k traversal allowed =
    if uses_load_estimator traversal
    then or_none (intersection allowed (all_compatible_load_estimators k))
    else load_estimator_none ∷ []
