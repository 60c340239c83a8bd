-- ===== src/Clift.antt =====
-- lib/mlir/Dialect/Clift/IR: the types of the Clift dialect and the checks on its operations.
pub mod Types
pub mod Kinds
pub mod Signature
pub mod Calls
pub mod Classes
pub mod Casts
pub mod Recursion
pub mod Statements
