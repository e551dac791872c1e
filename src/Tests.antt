-- ===== src/Tests.antt =====
-- Runs of the model, and each theorem at a concrete input.
mod Memory
mod Handover
mod Sorting
mod Screen
mod Tree
mod Walk
mod Driven
mod Breaks
mod Serial
mod Receive
mod Idle
mod Picture
mod Transmit
mod Boot
mod X86
