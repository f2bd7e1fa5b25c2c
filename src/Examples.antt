-- ===== src/Examples.antt =====
-- A small machine that meets the laws, on which the theorems are tried and the programs are run.
mod Kernel
mod Programs
mod Resizes
mod Faults
mod Threads
mod Stress
mod Workers
mod Faulting
mod Files
mod Stack
mod Shared
mod Signals
mod Regions
mod Children
mod Crew
mod Hygiene
