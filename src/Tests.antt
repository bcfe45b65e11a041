-- ===== src/Tests.antt =====
-- Tests of the definitions on concrete inputs, and each theorem at an input that meets its
-- hypotheses.
mod Samples
mod EventsTests
mod LoopTests
mod RunTests
mod PoolTests
mod McoTests
mod HookTests
mod ServerTests
mod ThreadTests
mod TimeTests
mod LifeTests
mod MutexTests
mod LogTests
