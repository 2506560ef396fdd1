-- ===== src/Tests.antt =====
-- Runs on small inputs, and the theorems at concrete inputs.
mod Text
mod Numbers
mod Index
mod Files
mod Stored
mod Connected
mod Unspent
mod Chain
mod Threads
mod Query
mod Whole
mod Open
mod Scripts
