-- ===== src/Models.antt =====
-- shared/models.py: the packet and what it is made of.
pub mod Uuid
pub mod Moment
pub mod Fields
pub mod Instruction
pub mod Packet
pub mod Wire
pub mod Codes
