-- ===== src/Loader.antt =====
-- src/module_loader.cpp: `ModuleParser` and `parse_module`.
pub mod Parts
pub mod Sections
pub mod Parse
pub mod Total
pub mod Ends
