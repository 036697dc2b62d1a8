-- ===== src/Accounting/Agreement.antt =====
-- Two processes compare their buffers: the comparison goes through exactly when they have inserted the
-- same components.
pub mod Loops
pub mod Collections
pub mod Inserted
pub mod Buffers
pub mod Kinds
