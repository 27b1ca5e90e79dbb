-- ===== src/Examples.antt =====
-- Tests of the definitions on concrete inputs, and the theorems at concrete inputs.
mod Config
mod Certs
mod Chain
mod Storage
mod Vm
mod Network
mod Index
mod Replica
mod Clients
mod Proposals
mod InMemory
mod Reload
mod Growing
mod Fork
mod Rounds
mod Linking
mod Replicas
mod Leading
mod Files
