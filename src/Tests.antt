-- ===== src/Tests.antt =====
-- The development at concrete inputs: queues that are lists, and a pair with rings of four bytes.
mod Model
mod Rings
mod Directions
mod Ioctls
mod Lives
mod Tables
mod Entries
mod Sessions
mod Services
