-- ===== src/Timer.antt =====
-- include/timer: the timer of the reactors, a set ordered by expiry, and the hashed timing wheel.
pub mod Tree
pub mod Wheel
