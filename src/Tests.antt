-- ===== src/Tests.antt =====
-- The theorems at concrete inputs, and runs of the models.
mod Boot
mod Memory
mod Paging
mod Processes
mod Locks
mod Files
mod Archives
mod Devices
mod Spaces
mod Clones
mod Names
