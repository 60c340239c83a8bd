-- ===== src/Ghast.antt =====
-- The GHAST: conditions (include/revng-c/RestructureCFG/ExprNode.h) and statements
-- (include/revng-c/RestructureCFG/ASTNode.h).
pub mod Expr
pub mod Node
pub mod Everywhere
pub mod Identity
pub mod Children
pub mod Equality
