-- ===== src/E2e.antt =====
-- internal/e2e: the node that the end-to-end tests of the repository run against.
pub mod FakeNode
