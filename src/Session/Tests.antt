-- ===== src/Session/Tests.antt =====
-- A session that is about to expire.
use authsentinel.Base.{none, pos}
use authsentinel.Session.{Session}

abbrev expiring : Session
expiring = record {
  id = "id1";
  access_token = "at";
  refresh_token = "rt";
  id_token = "";
  expires_at = pos 1000;
  claims = none;
  tenant_context = none;
}
