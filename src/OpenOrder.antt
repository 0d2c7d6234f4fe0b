-- ===== src/OpenOrder.antt =====
-- solver/cmd/tools/open-order: the orders that the tool opens on EVM chains and on Starknet.
pub mod EvmData
pub mod Random
pub mod StarknetData
pub mod StarknetOrders
