-- ===== src/Types.antt =====
-- solver/solvercore/types: the order, the allow and block lists, and addresses.
mod Order
pub mod AllowBlock
pub mod OrderId
pub mod Address
pub use Order.*
