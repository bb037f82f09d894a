-- ===== src/Merk.antt =====
-- Merk proofs: their nodes and operations (src/willow/grovedb/types.py), the decoder of operations
-- (src/willow/grovedb/merk_decoder.py), the tree that they build (src/willow/grovedb/tree.py), and the
-- machine that builds it (src/willow/grovedb/executor.py).
pub mod Nodes
pub mod Shape
pub mod State
pub mod Decoder
pub mod Tree
pub mod Executor
