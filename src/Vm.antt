-- ===== src/Vm.antt =====
-- hotstuff/vm: how the replica drives the state machine that it replicates.
pub mod Gadget
pub mod Control
pub mod Bridge
pub mod Counting
pub mod Nonspeculative
