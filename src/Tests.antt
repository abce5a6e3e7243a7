-- ===== src/Tests.antt =====
-- Runs on concrete inputs, and an instance of each theorem that has hypotheses.
mod Data
mod Runs
mod Texts
mod Valid
mod Witnesses
mod Trees
mod EntryNames
mod Recursion
mod Console
mod Sound
