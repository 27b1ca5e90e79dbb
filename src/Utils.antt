-- ===== src/Utils.antt =====
-- The helpers of hotstuff/utils: bit vectors and big-endian byte strings.
pub mod Powers
pub mod BitVector
pub mod BigEndian
