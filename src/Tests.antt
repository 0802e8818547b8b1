-- ===== src/Tests.antt =====
-- Concrete runs of the code, and the inputs at which the theorems are applied.
mod Crc
mod Record
mod HTree
mod Varint
mod Store
mod Bitcask
mod HStore
mod FreeList
mod Clib
mod Codec
mod Recovery
