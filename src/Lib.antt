-- ===== src/Lib.antt =====
-- The partitioning of C and C++ programs for secure enclaves: what is computed from the annotations of
-- a program, its call graph and its dependence graph, up to the two partitions that are extracted, and the
-- code that is generated for an enclave.
--
-- The parts and their files:
-- - Partition: lib/Analysis/Partition.cpp, one side of a partitioning. A std::unordered_set is a list of
--   pointers without repetition, a map an association list with one entry for a key; the getters are
--   the fields. Partition/Levels, Membership and Refinement hold what its operations do.
-- - PartitionUtils: lib/Utils/PartitionUtils.cpp, the interfaces of a set of functions, which are
--   computed from the dependence graph.
-- - Numbers: include/Analysis/Numbers.h, sums and products that stop at two infinities, over the
--   operations of an arithmetic type.
-- - CallGraph: lib/Analysis/CallGraph.cpp and include/Analysis/CallGraph.h, the graph with weights that
--   is built from LLVM's. CallGraph/Weights is WeightFactor and Weight, CallGraph/Assign the assignment
--   of the factors (WeightAssigningHelper), and CallGraph/Normalize their normalization, at the places in
--   the graph that the code keeps pointers to, and the whole of assignWeights. CallGraph/Placed and
--   Located are about these places, Weighted about the calls that may fail, and CallGraph/Infinite about
--   the weights of the secure functions.
-- - KernighanLin: lib/Optimization/KLOptimizationPass.cpp and KLOptimizer.cpp.
-- - Optimization: the other optimizations of lib/Optimization, with ILPOptimization.cpp in
--   Optimization/Ilp.
-- - PartitionOptimizer: lib/Optimization/PartitionOptimizer.cpp, which runs the optimizations on the two
--   partitions and applies them; PartitionOptimizer/Names has the names of the options from
--   lib/Analysis/ProgramPartitionAnalysis.cpp.
-- - Partitioner: lib/Analysis/Partitioner.cpp, which makes the two partitions from the annotations
--   (include/Utils/Annotation.h); Partitioner/Traversal has the loops over the dependence graph, and
--   getNodeParent of lib/Utils/Utils.cpp is in Partitioner.
-- - Annotations: include/Utils/AnnotationParser.h with lib/Utils/JsonAnnotationParser.cpp and
--   ModuleAnnotationParser.cpp, from what the JSON library and LLVM have read.
-- - ProgramPartition: lib/Analysis/ProgramPartitionAnalysis.cpp, the optimizer on the partitioner's result;
--   ProgramPartitionAnalysis is runOnModule of that file, from the annotations through the partitioner and
--   the weights to the optimizer.
-- - CodeGen: lib/CodeGen/Function.cpp and include/CodeGen/Function.h, functions of generated code and their
--   texts. CodeGen/Scopes is Class.cpp, Class.h and SourceFile.h, and CodeGen/Writer is FileWriter.cpp and
--   SourceFileWriter.cpp; a scope is a value, since no scope changes once it is in another one.
-- - SgxCodeGenerator: lib/CodeGen/SGXCodeGenerator.cpp, which makes the enclave and its driver. Stack has the
--   instructions for Asylo's parameter stack, Selectors, Enclave and Driver the three files, and Generate
--   the whole. Steps is an abstract machine for those instructions, with the stack as a parameter, and
--   Rendering relates it to the texts.
-- - ProtoFile: include/CodeGen/ProtoMessage.h, ProtoService.h and ProtoFile.h. ProtoFile/Generator is
--   lib/CodeGen/ProtoFileGenerator.cpp and ProtoFile/Writer is ProtoFileWriter.cpp;
--   Known, Fields and Closed have what the generator keeps, Layers and Ends where
--   it returns and Diverges where it does not. CodeGen/FunctionNames is lib/CodeGen/CodeGenUtils.cpp.
-- - ClangProto: lib/ClangTools/ProtoFileGenerator.cpp, with the messages of functions and the service in
--   ClangProto/Service; CompositeFields and CompositeMessages
--   have what the theorem in Outputs needs.
-- - PartitionExtractor: lib/Transforms/PartitionExtractor.cpp, the names and the functions of the two modules.
--   PartitionExtractor/Globals has the setters of globals (GlobalVariableExtractorHelper), and
--   PartitionExtractor/Pass the whole pass.
-- - Statistics: lib/Analysis/PartitionStatistics.cpp and lib/Utils/Statistics.cpp, the JSON object of the report.
-- - OptimizationData: lib/Debug/ILPOptimizationData.cpp and lib/Debug/OptimizationFactorsTable.cpp, the table of
--   calls, its text, and the linear program that is written from it; OptimizationData/Counts has its numbers.
-- - Texts: what the generators use of std::string and std::to_string.
-- - Llvm and Pdg: what the program reads of LLVM and of the dependence graph, as records of functions
--   that the definitions take as arguments. A pointer is a number and the null pointer is 0.
-- - Base: shared containers and lemmas. Examples: a small program, and the theorems applied to it.
--
-- A failed assertion and a dereferenced null pointer are `none`. The loop of a Kernighan-Lin pass has as
-- much fuel as there are candidates, since each round removes one. The traversals of the dependence graph
-- run on fuel that the caller gives: the one for a return value needs a round for each return node and
-- for each edge into a node of a value, since it records the values that it met. The search for the stores
-- to a global records nothing, and needs a round for each path. The generators of .proto files run on fuel
-- above the rank of a type, which its parts are below. An Outcome tells their failed assertions, what C++
-- leaves undefined, and the end of the fuel apart. The order of an
-- iteration over a hash table is the order of the list, which the theorems do not fix.
--
-- Not modelled: CPLEX (a parameter), floating-point rounding (the numbers are a parameter), output to
-- the log and to files other than generated ones, the registration of the LLVM passes, the reading of JSON
-- (the library is not part of the repository), the instructions in setters of globals, the drivers around
-- clang's matchers, and the other passes that print, compare or instrument programs for the
-- evaluation.
pub mod Annotations
pub mod Base
pub mod CallGraph
pub mod ClangProto
pub mod CodeGen
pub mod Examples
pub mod KernighanLin
pub mod Llvm
pub mod Numbers
pub mod Optimization
pub mod OptimizationData
pub mod Partition
pub mod PartitionExtractor
pub mod PartitionOptimizer
pub mod PartitionUtils
pub mod Partitioner
pub mod Pdg
pub mod ProgramPartition
pub mod ProgramPartitionAnalysis
pub mod ProtoFile
pub mod SgxCodeGenerator
pub mod Statistics
pub mod Texts
