-- ===== src/Host/Trial.antt =====
-- Interfaces and volumes of a host, and the theorems at them.
