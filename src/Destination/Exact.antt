-- ===== src/Destination/Exact.antt =====
-- When an import is started.
use harbor_transfer_portal.Bundle.Text.{Text}
