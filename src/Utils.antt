-- ===== src/Utils.antt =====
-- src/lib/utils.cpp.
pub mod Common
pub mod CommonLaws
pub mod Python
pub mod Files
