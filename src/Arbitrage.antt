-- ===== src/Arbitrage.antt =====
-- examples/toy-arbitrage/src: the encodings and the decoders of the example strategy.
pub mod Rlp
pub mod Hex
pub mod Json
pub mod Rpc
pub mod Loop
pub mod Startup
pub mod Wiring
pub mod Abi
pub mod Decoder
pub mod Prices
