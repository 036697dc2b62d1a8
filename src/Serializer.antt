-- ===== src/Serializer.antt =====
-- The serializer of Serialize/Serializer.hpp and Serializer.cpp and the operators for the standard
-- containers in Serialize/Stl.
pub mod State
pub mod Memory
pub mod Contract
pub mod Scalars
pub mod Copying
pub mod Containers
pub mod Elements
pub mod Sequences
pub mod Vectors
pub mod Compounds
pub mod Owners
pub mod Virtual
pub mod Registry
pub mod Associative
pub mod Emplacing
pub mod Maps
