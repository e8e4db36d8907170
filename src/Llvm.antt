-- ===== src/Llvm.antt =====
-- What the program reads of LLVM, which is not part of the repository: a module's functions and
-- globals with the properties that the code asks for. Pointers are numbers, and 0 is the null pointer.
use Prim.Native.String.{String}
use program_partitioning_for.Base.{ℕ, Bool, List}

-- llvm::Function*
abbrev pub FunctionRef : Type 0
FunctionRef = ℕ

-- llvm::GlobalVariable*
abbrev pub GlobalRef : Type 0
GlobalRef = ℕ

-- llvm::Value* (an instruction, an argument) and llvm::BasicBlock*
abbrev pub ValueRef : Type 0
ValueRef = ℕ

abbrev pub BlockRef : Type 0
BlockRef = ℕ

abbrev pub null : ℕ
null = 0

-- llvm::Module with the queries on its functions.
pub record Module : Type 0 where
  pub functions : List FunctionRef
  pub globals : List GlobalRef
  pub is_declaration : FunctionRef → Bool
  pub is_intrinsic : FunctionRef → Bool
  pub name : FunctionRef → String

-- llvm::CallSite: the calling function and the block of the call.
pub record CallSite : Type 0 where
  pub caller : FunctionRef
  pub parent : BlockRef

-- The types of a function: whether an argument is a pointer, and whether nothing is returned.
pub record Signatures : Type 0 where
  pub arg_is_pointer : FunctionRef → ℕ → Bool
  pub returns_void : FunctionRef → Bool
