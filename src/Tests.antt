-- ===== src/Tests.antt =====
-- The theorems at concrete states, and runs of the definitions.
mod Machine
mod Lists
mod Queues
mod Space
mod Devices
mod Kernels
mod Running
mod Users
