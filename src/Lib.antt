-- ===== src/Lib.antt =====
-- A model of Ferro-JType, which infers the types of the locals and of the operand stack of methods
-- in Java class files, and theorems about the model.
--
-- The program reads descriptors and names from a class file (src/types/descriptor.rs,
-- src/types/class_name.rs) and lowers methods to instructions (src/ir). For each method it builds a
-- control-flow graph (src/cfg/build.rs) and walks it with a worklist (src/solver/engine): a block is
-- interpreted on an abstract frame (src/solver/frame.rs), in which each instruction changes the frame
-- at hand (src/solver/transfer), and along the edges frames are merged, by the join of types of
-- src/types/inference.rs, until none changes or a budget is used up. The join asks a class hierarchy
-- (src/hierarchy.rs), where there is one, for the nearest common supertype of two classes; calls and
-- static fields ask resolvers of summaries (src/summary.rs), which the caller may supply.
--
-- The files and what they model:
--   Types/ClassName, Types/Utf8: ClassName of src/types/class_name.rs; names are lists of bytes.
--   Types/Primitive, Types/Descriptor: the descriptors and the parser of src/types/descriptor.rs. The
--     parser's cursor is kept with the rest of the input. Descriptor/Print defines what a descriptor
--     prints to, and the files beside it relate the two.
--   Types/Integral: IntegralTypeSet of src/types/integral.rs, a bit mask.
--   Types/Inferred: ReferenceType and InferredType of src/types/inference.rs; Inferred/Order has the
--     order of the types, Inferred/Join the joins. Inferred/Meaning is an abstract view that the
--     program does not have: which values at run time a type describes.
--   Hierarchy: the trait TypeHierarchy of src/hierarchy.rs as a record, with ancestor_distances and
--     common_supertype; Hierarchy/InMemory has ClassHierarchy, which implements it.
--   Frame and its children: every method of Frame in src/solver/frame.rs. A stack is a list from its
--     top, where the program keeps the top at the end; the vectors that run in parallel stay apart.
--   Ir, Diagnostic: the data of src/ir/model.rs and of src/diagnostic.rs. The text of a message is
--     kept as data.
--   Opcodes: the constants of the crate rust_asm that the program names, a parameter of every model
--     that tests an opcode; IsJvm says that they are the numbers of the Java Virtual Machine
--     Specification, which some theorems need.
--   Summary: the resolver traits of src/summary.rs as records of functions, with the check of a
--     summary; MethodInvocationKind of src/types/invocation.rs.
--   Transfer: Stack for src/solver/transfer/stack.rs, Array for array.rs, Member and Call for member.rs,
--     Operations and Dispatch for mod.rs there. A function of these takes a mutable frame and a mutable
--     list of diagnostics; in the model it is a step on the pair. The match over opcodes is a list of
--     arms in the order of the source.
--   Cfg: the graph of src/cfg/graph.rs; Cfg/Opcode, Starts, Edges and Build for src/cfg/build.rs: the
--     tests of opcodes, the starts of blocks, the edges, and the function build_cfg. A block's number
--     is its index. Cfg/Build/Control has the flow of control of the Java Virtual Machine Specification,
--     to which the program has no counterpart.
--   Engine: the state of src/solver/engine; Queue, Branch and Propagate for propagate.rs, Blocks and
--     Analyze for the loop of analyze_method in mod.rs.
--   Witnesses: inputs at which the theorems apply.
--
-- Numbers are natural numbers; what the program does at the bounds of `u8` and `u16` is written out
-- (the 255 dimensions of an array, the sum of parameter slots, the slots that an origin names). A
-- panic of the sum of parameter slots is `none`. The dimensions of an array are counted down as in a
-- build without overflow checks, which wraps at an array of no dimensions; with the checks the program
-- panics there. Of the indices into vectors that run in parallel, those of
-- merge_from are modelled with their panic in Frame/Merge/Indexed, and the engine merges without it;
-- the others have their condition written beside them. Maps are association lists and the sets of
-- return targets are ascending lists.
--
-- In the graph and the engine an index out of bounds is a value: `none` of build_cfg, the error of the
-- loop.
--
-- Fuel: the field parser takes two, for an array and its element, and the parameters of a method take
-- as many rounds as the input has bytes. The search for ancestors takes two rounds more than the
-- classes that the answers of the hierarchy name, where each round takes one class from the queue; a
-- hierarchy that names ever new classes, at which the search of the program does not end, is left out.
-- The loop of the engine takes one round more than the bound on work items; without that bound its end
-- is not shown.
--
-- Not modelled: reading class files and archives, which third-party crates do in the main, and the
-- rewriting of class files before that; lowering; generic signatures; what is read from the final
-- frames (src/solver/engine/observe.rs); the solver of whole classes, with the maps of summaries. The
-- trait of hierarchies is modelled with answers that do not change, and without `insert_class`.
pub mod Prelude
pub mod Types
pub mod Hierarchy
pub mod Ir
pub mod Diagnostic
pub mod Opcodes
pub mod Frame
pub mod Transfer
pub mod Cfg
pub mod Engine
pub mod Summary
pub mod Witnesses
