-- ===== src/RateLimit/Refresh.antt =====
-- A hold is refreshed once, and lasts for three minutes from then on.
