-- ===== src/Tests.antt =====
-- Runs of the code on concrete inputs, and the theorems at concrete inputs.
mod Samples
mod Containers
mod Clients
mod Nodes
mod Events
mod Ends
mod Removal
mod Trees
mod Removals
mod Windup
mod Coroutines
mod Refusals
