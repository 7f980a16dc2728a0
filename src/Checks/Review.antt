-- ===== src/Checks/Review.antt =====
-- A check is reviewed once, and its approval pays exactly its amount.
