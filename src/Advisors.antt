-- ===== src/Advisors.antt =====
-- src/trading/application/advisors: the answer of the language model (Llm) and the agent (Agent).
pub mod Llm
pub mod Agent
pub mod Sound
mod Tests
