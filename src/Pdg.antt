-- ===== src/Pdg.antt =====
-- What the program reads of the program dependence graph (the PDG and SVF projects, which are not
-- part of the repository). Nodes are numbers; a `dyn_cast` to a class of nodes is a function into
-- Option, an `isa` a test.
use program_partitioning_for.Base.{ℕ, Bool, List, Option}
use program_partitioning_for.Llvm.{FunctionRef, GlobalRef, ValueRef, CallSite}

abbrev pub NodeRef : Type 0
NodeRef = ℕ

-- pdg::PDGEdge
pub record PdgEdge : Type 0 where
  pub is_control_edge : Bool
  pub source : NodeRef
  pub destination : NodeRef

-- pdg::PDG with its function graphs.
pub record Pdg : Type 0 where
  -- hasFunctionPDG(F), the keys of getFunctionPDGs(), getFunctionPDG(F)->getCallSites() (the calls
  -- of F) and the entries between llvmNodesBegin() and llvmNodesEnd()
  pub has_function_pdg : FunctionRef → Bool
  pub function_pdgs : List FunctionRef
  pub call_sites : FunctionRef → List CallSite
  pub llvm_nodes : FunctionRef → List (ValueRef × NodeRef)
  -- isa<CallInst>, isa<InvokeInst>
  pub is_call_inst : ValueRef → Bool
  pub is_invoke_inst : ValueRef → Bool
  pub in_edges : NodeRef → List PdgEdge
  pub out_edges : NodeRef → List PdgEdge
  -- dyn_cast<PDGLLVMFunctionNode>(node)->getFunction()
  pub function_node : NodeRef → Option FunctionRef

-- What the traversals and the search for globals read of nodes: classes of nodes (`dyn_cast`, `isa`),
-- the value of an LLVM node (null where there is none) and the function it belongs to.
pub record PdgNodes : Type 0 where
  pub is_llvm_node : NodeRef → Bool
  pub is_instruction_node : NodeRef → Bool
  pub is_constant_node : NodeRef → Bool
  pub is_null_node : NodeRef → Bool
  pub node_value : NodeRef → ValueRef
  pub parent : NodeRef → FunctionRef
  -- hasNode and getNode, hasFormalArgNode and getFormalArgNode of a function's graph
  pub node_of : FunctionRef → ValueRef → Option NodeRef
  pub formal_arg_node : FunctionRef → ℕ → Option NodeRef
  -- For an actual-argument node, whether the argument of the call has a pointer type
  pub actual_arg_is_pointer : NodeRef → Option Bool
  pub formal_arg_function : NodeRef → Option FunctionRef
  -- StoreInst::getValueOperand, and the return instructions of a function
  pub store_operand : ValueRef → Option ValueRef
  pub return_insts : FunctionRef → List ValueRef
  -- hasGlobalVariableNode and getGlobalVariableNode
  pub global_node : GlobalRef → Option NodeRef
  -- The function of an instruction node, of a va-arg node, the caller of an actual-argument node, the
  -- function of a block node and of a phi node
  pub instruction_function : NodeRef → Option FunctionRef
  pub va_arg_function : NodeRef → Option FunctionRef
  pub actual_arg_caller : NodeRef → Option FunctionRef
  pub block_function : NodeRef → Option FunctionRef
  pub phi_function : NodeRef → Option FunctionRef
