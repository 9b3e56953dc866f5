-- ===== src/Tests.antt =====
-- Concrete runs of the models, which the theorems are applied to.
mod Spsc
mod Threads
mod Programs
mod Args
mod Stacks
mod Benches
mod Workers
mod Buffers
mod Rounds
mod HeadToHead
mod Runs
