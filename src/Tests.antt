-- ===== src/Tests.antt =====
-- The theorems at concrete inputs, and runs of the code.
mod Data
mod Packets
mod Transfers
mod Graphs
mod Trees
mod Runs
mod Bounds
mod Programs
mod Tables
