-- ===== src/Proxy/Http/Identified.antt =====
-- The identity headers of a request at the upstream.
use authsentinel.Value.{Claims}
