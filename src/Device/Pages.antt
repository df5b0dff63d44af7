-- ===== src/Device/Pages.antt =====
-- A device page by page: what is written is read back.
