-- ===== src/TestExecutor.antt =====
-- test_executor.py: the testing language and its execution.
pub mod Errors
pub mod Line
pub mod Parser
pub mod Unwrapper
pub mod Netem
pub mod Queue
mod Tests
