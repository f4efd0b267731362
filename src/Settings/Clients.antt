-- ===== src/Settings/Clients.antt =====
-- The client settings that the optional SASL and TLS settings are merged into.
use reimbursement_analyzer.Json.{Json}
