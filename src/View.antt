-- ===== src/View.antt =====
-- Stored views, frontend/src/lib/viewState.ts: `Fields` reads the parts of one, `Parser` is
-- parseViewState with the registration of an embedded color map, `Source` writes a view back.
pub mod Fields
pub mod Parser
