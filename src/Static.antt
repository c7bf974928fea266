-- ===== src/Static.antt =====
-- Static paths (src/staticpath.h, src/staticpath.cpp): the options of a path, the manager that
-- keeps the paths, and the search for the path that a URL belongs to.
pub mod Options
pub mod Compare
pub mod Manager
pub mod Entries
pub mod Match
pub mod Deepest
pub mod Slash
pub mod Longest
