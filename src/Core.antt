-- ===== src/Core.antt =====
-- include/kekmonitors/core.hpp and src/lib/core.cpp: the codes and the tables of their names.
pub mod Codes
pub mod Bimap
pub mod Names
pub mod Registered
pub mod Table
