-- ===== src/Lib.antt =====
-- AutoPas is a library for short-range particle simulations that picks, while it runs, the fastest
-- of many configurations (container, traversal, data layout, ...) for the pairwise forces. A client
-- calls `iteratePairwisePipeline` of the LogicHandler once per time step; the handler asks the
-- AutoTuner for a configuration, runs the traversal that the configuration names, and hands the
-- measured time back to the tuner, which passes it to its tuning strategy. The traversals of
-- linked cells visit base cells colour by colour: cells of one colour run in parallel.
--
-- The files:
--   Prelude, Prelude/*: names of the library passed on, Boolean tests, lists, 64-bit words, signed
--     integers over the native numbers, and the class of types with a Boolean equality.
--   Mapping, Mapping/Bijection: src/autopas/utils/ThreeDimensionalMapping.h (`threeToOneD`,
--     `oneToThreeD`).
--   Traversal, Traversal/*: src/autopas/containers/cellPairTraversals/CBasedTraversal.h
--     (`cTraversal`) and the c01, c04, c08 and c18 colourings in the headers beside it. A traversal
--     is the list of its calls of the loop body, each with the colour that was current.
--   Octree/Direction, Octree/Direction/*: src/autopas/containers/octree/OctreeDirection.h, all of
--     its tables and functions.
--   Tuning/Optimum, Tuning/Optimum/*: src/autopas/selectors/OptimumSelector.h.
--   Tuning/Strategy: src/autopas/selectors/tuningStrategy/TuningStrategyInterface.h, the interface
--     between the tuner and a strategy, as a record of functions.
--   Tuning/FullSearch, Tuning/FullSearch/*: FullSearch.cpp over SetSearchSpaceBasedTuningStrategy.cpp
--     in the same directory, which fill that interface.
--   Tuning/SearchSpace, Tuning/SearchSpace/*: `populateSearchSpace` and `removeN3Option` of the latter.
--   Tuning/Tuner: src/autopas/selectors/AutoTuner.h and AutoTuner.cpp.
--   Tuning/Pipeline, Tuning/Pipeline/*: `selectConfiguration`, `iteratePairwisePipeline` and
--     `neighborListsAreValid` of src/autopas/LogicHandler.h. Phase, Measure, Start, Steps and Run
--     follow a tuning phase through its iterations, Reopen what comes after it, Rebuild the
--     rebuilds of neighbor lists in it.
--   Options, Options/Compatible: the options and which of them fit together, of the headers in
--     src/autopas/options, CompatibleTraversals.h and CompatibleLoadEstimators.h in
--     src/autopas/containers.
--   ParticleVector, ParticleVector/References: src/autopas/containers/linkedCells/ParticleVector.h.
--   SafeMath, SafeMath/Saturation: `safeAdd`, `safeSub` and `safeMul` of src/autopas/utils/Math.h.
--   Rules/Vm, Rules/Execute: src/autopas/selectors/tuningStrategy/ruleBasedTuning/RuleVM.h, the
--     machine that runs rule programs: its cells and instructions, and `execute`.
--   Rules/Patterns: the configuration patterns and orders of RuleBasedProgramTree.h in that directory.
--   Rules/Syntax, Rules/Generate: the syntax tree of rule programs, the code generation context and
--     `generateCode`, of RuleBasedProgramTree.h and RuleBasedProgramTree.cpp there.
--   Rules/Meaning: an interpreter of rule programs, the specification of the two.
--   Rules/Compile, Rules/Compile/*: what code is generated. Rules/Correct, Rules/Correct/*: how the
--     machine runs through it. Rules/Types is about `getType`.
--   Rules/Tuning, Rules/Tuning/*: RuleBasedTuning.h there, which generates and runs the code of the
--     rules on the live info and restricts the search space; Verify is its verify mode.
--   LinkedCells/BaseStep, LinkedCells/BaseStep/*: LCC08CellHandler.h (`computeOffsets`,
--     `processBaseCell`) and LCC08Traversal.h in src/autopas/containers/linkedCells/traversals, on top
--     of the c08 traversal of base cells. Lookup, Places and Entries follow one step of the loops of
--     `computeOffsets`, Block one base cell, Once and Footprint the whole traversal.
--   Particles, Particles/Cell: src/autopas/particles/ParticleBase.h and
--     src/autopas/cells/FullParticleCell.h.
--   Particles/Container: the container as the logic handler sees it, a record of operations and one
--     of laws. Particles/DirectSum, Particles/DirectSum/*: src/autopas/containers/directSum/DirectSum.h,
--     which fills both.
--   Particles/Handler, Particles/Handler/*: the particles of src/autopas/LogicHandler.h: its buffers
--     and counters, `addParticle`, `addHaloParticle`, `updateContainer`, `deleteAllParticles`.
--   Particles/Tower, Particles/Tower/*: src/autopas/containers/verletClusterLists/ClusterTower.h.
--   Tests, Tests/*: runs of the model on small inputs, and the theorems at concrete inputs.
--
-- Conventions. `unsigned long` and `size_t` are native numbers with the wrap-around at 2 ^ 64
-- written out; conversions to `int` keep the last 32 bits; `long` is an integer, and sums of
-- times are taken not to overflow. Exceptions are values. `undefined` stands for undefined
-- behaviour of C++, such as reading an iterator at the end.
--
-- Bounds and fuel. A loop of `cTraversal` gets `end` rounds: the counter grows by at least one per
-- round, so the condition fails by then. The loop that rejects configurations takes its fuel as an
-- argument; the theorems about tuning phases, where every configuration is applicable, hold for any
-- fuel but zero.
-- The loop of the rule machine gets a number of rounds; one more than the program has instructions
-- is enough where no jump leads back, as in all generated code. The loops that erase from a vector while
-- they run over it get a round for each particle; each round keeps or erases one.
--
-- Not modelled: floating-point computations (positions, functors, the Bayesian and predictive
-- strategies, smoothing, which is a parameter of the tuner), the other containers of particles, the
-- names and the parsing of options and of rule files (the parser is generated), logging, timers, MPI
-- and OpenMP wrappers, and the example programs. Applicability
-- of a configuration and the measured time are inputs of an iteration.
pub mod Prelude
pub mod Mapping
pub mod Traversal
pub mod Octree
pub mod Rules
pub mod Tuning
pub mod SafeMath
mod Tests
pub mod Options
pub mod ParticleVector
pub mod LinkedCells
pub mod Particles
