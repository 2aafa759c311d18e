-- ===== src/Examples.antt =====
-- Concrete runs of the kernel's code, at which the conditions of the theorems hold.
mod Frames
mod Tables
mod Allocator
mod Input
mod Library
mod Files
mod Printing
mod Processes
mod Calls
mod Screen
mod Bus
mod Traps
mod Programs
mod Disk
mod Images
mod Launches
mod Startup
