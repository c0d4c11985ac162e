-- ===== src/Numeric.antt =====
-- src/interpreter.cpp: the integer and float instructions as functions on bit patterns.
pub mod Word
pub mod Count
pub mod Extend
pub mod Division
pub mod Float
pub mod Convert
