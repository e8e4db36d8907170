-- ===== src/SgxCodeGenerator.antt =====
-- lib/CodeGen/SGXCodeGenerator.cpp: the code of an enclave and of the driver that calls it, with Asylo.
-- The generated functions hand arguments over on a parameter stack.
pub mod Stack
pub mod Selectors
pub mod Enclave
pub mod Driver
pub mod Generate
pub mod Numbering
pub mod Handlers
pub mod Endings
pub mod Steps
pub mod Rendering
pub mod Assignments
pub mod ParamNames
pub mod Arguments
