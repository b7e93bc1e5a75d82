-- ===== src/Informers/Shared.antt =====
-- All ways to the informer of Jobs lead to the one that the factory shares.
