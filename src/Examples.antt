-- ===== src/Examples.antt =====
-- Concrete inputs, and the theorems of the other files applied to them.
pub mod Data
pub mod Decoding
pub mod Listening
pub mod Managing
pub mod Persisted
pub mod Words
pub mod Opening
pub mod StarknetOpening
pub mod Orders
pub mod Runs
