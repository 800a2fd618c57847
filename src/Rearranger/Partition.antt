-- ===== src/Rearranger/Partition.antt =====
-- The groups of the subset rearranger.
