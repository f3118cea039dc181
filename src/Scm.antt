-- ===== src/Scm.antt =====
-- What all source providers share, backend/internal/scm: the rules for paths in a repository.
pub mod Paths
pub mod Resolution
pub mod Escaping
mod Tests
