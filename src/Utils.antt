-- ===== src/Utils.antt =====
-- aiomisc/utils.py: chunks of an iterable, and the choice of the awaitable that ends first.
pub mod Chunks
pub mod Select
