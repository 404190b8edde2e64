-- ===== src/Paxos.antt =====
-- The Paxos node: paxos/composable_paxos.py.
pub mod Messages
pub mod Acceptor
pub mod Proposer
pub mod Learner
pub mod Instance
pub mod ReplicatedValue
pub mod Node
pub mod Messenger
pub mod Client
pub mod Master
pub mod Network
mod Tests
