-- ===== src/Examples.antt =====
-- Runs of the model at concrete inputs.
mod Calls
mod Team
mod Access
mod Requests
mod Threads
mod Turns
mod Authoring
mod Speech
mod Peers
mod Members
mod Answers
mod Writes
mod Graphs
mod Exporting
