-- ===== src/Discovery.antt =====
-- src/discovery: the ranking of candidates.
pub mod Ranking
