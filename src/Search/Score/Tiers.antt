-- ===== src/Search/Score/Tiers.antt =====
-- How the kinds of matches are ranked against each other.
