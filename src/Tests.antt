-- ===== src/Tests.antt =====
-- Tests of the definitions on concrete inputs, and the theorems at inputs that meet their hypotheses.
mod Data
mod Health
mod Probing
mod Replies
mod Schedule
mod Network
mod Rebuild
mod Json
mod Config
mod Loop
mod Published
