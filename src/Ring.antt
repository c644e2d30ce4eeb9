-- ===== src/Ring.antt =====
-- What the single-producer, single-consumer queues of src/platform share: an array used as a circle
-- of `n` slots, of which one stays free, between a consumer's and a producer's index.
-- The queues spell this arithmetic out each for itself; here are the laws of it.
pub mod Index
pub mod Window
pub mod Fifo
pub mod Spsc
