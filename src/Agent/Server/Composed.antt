-- ===== src/Agent/Server/Composed.antt =====
-- The server over the agent's service, as cmd/agent/main.go puts them together.
use authsentinel.Base.{String, Option, some, Result, ok, List}
use authsentinel.Agent.Config.{Config}
use authsentinel.Agent.Deps.{Deps}
use authsentinel.Agent.Flow.{World}
use authsentinel.Agent.Login.{login_start, login_end}
use authsentinel.Agent.Logout.{logout}
use authsentinel.Agent.Refresh.{refresh}
use authsentinel.Agent.Sessions.{SessionResponse, session, resolve, attach_tenant_context}
use authsentinel.Agent.Server.Answers.{Service, Server}
use authsentinel.Agent.Server.Http.{Request, Act}

module _ {S X : Type 0} (d : Deps S X) (cfg : Config) where
  -- Session never fails.
  abbrev answered : SessionResponse × World S X → Result SessionResponse × World S X
  answered (resp, w) = (ok resp, w)

  abbrev pub agent_service : Service (World S X)
  agent_service = record {
    session = λ c w. answered (session d cfg c w);
    login_start = login_start d cfg;
    login_end = login_end d cfg;
    refresh = refresh d cfg;
    logout = logout d cfg;
    concrete =
        some
          (record { resolve = resolve d cfg; attach_tenant_context = attach_tenant_context d cfg });
  }

  abbrev pub agent_server :
      Option (World S X → Result (Unit {0}) × World S X)
      → Option (Request → World S X → List Act × World S X)
      → (Request → String → String)
      → Server (World S X)
  agent_server ping metrics location = record {
    svc = agent_service;
    cfg = cfg;
    ping = ping;
    metrics_handler = metrics;
    location = location;
  }
