-- ===== src/Tests.antt =====
-- The theorems of each part at concrete inputs.
mod Logging
mod Processes
mod Locks
mod Pipes
mod Pages
mod Numbers
mod Buffers
mod OpenFiles
mod FileSystems
mod Inodes
mod Calls
mod Patterns
mod Consoles
mod PathNames
mod Memory
mod PageTables
