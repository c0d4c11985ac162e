-- ===== src/Runner.antt =====
-- examples/run_wat_module.cpp: the command line runner and its WASI host.
pub mod World
pub mod Accessor
pub mod Arguments
pub mod Descriptors
pub mod Paths
pub mod Devices
pub mod Host
pub mod Table
pub mod Kept
pub mod Safety
pub mod Runs
pub mod Confined
pub mod Modules
pub mod Options
pub mod Main
pub mod Signatures
pub mod Validated
pub mod Layout
pub mod Opening
