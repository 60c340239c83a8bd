-- ===== src/Beautify.antt =====
-- The beautification passes over the GHAST (lib/RestructureCFG).
pub mod CompareNode
pub mod HybridNot
pub mod EmptyThen
pub mod LoopVariable
pub mod Sequences
pub mod ImplicitStatement
pub mod AtomicSequence
pub mod Canonical
pub mod DoWhile
pub mod While
pub mod Weight
pub mod FallThrough
pub mod Promotion
pub mod CallNoReturn
pub mod DualSwitch
pub mod ShortCircuit
pub mod SwitchBreaks
pub mod MatchSwitch
pub mod Dispatcher
pub mod DeadCode
