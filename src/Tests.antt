-- ===== src/Tests.antt =====
-- Runs of the definitions on small inputs, and the theorems at inputs that meet their hypotheses.
mod Chunks
mod Devices
mod Guest
mod Disks
mod Typed
mod Queues
mod Tasks
mod Locks
mod Mailboxes
mod Pages
mod Texts
mod Keys
mod Threads
mod Images
mod Processor
mod Starts
mod Numerals
