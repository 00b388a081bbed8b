-- ===== src/Agent/Server/Cookies.antt =====
-- The cookie lines of internal/agent/httpserver/server.go
use authsentinel.Base.{String, if◌then◌else◌, ◌==◌}
use authsentinel.Agent.Config.{Config, SameSite, lax, strict, none_mode}
use authsentinel.Text.{◌+s◌, itoa}

abbrev pub same_site : SameSite → String
same_site lax = "Lax"
same_site strict = "Strict"
same_site none_mode = "None"

-- The Set-Cookie line of writeSessionCookie with the options of cookieOpts
unfoldable pub cookie_line : Config → String → String
unfolding itoa
cookie_line cfg value =
    let v =
      cfg.cookie_name
      +s "="
      +s value
      +s "; Path="
      +s "/"
      +s "; Max-Age="
      +s itoa cfg.session_ttl_seconds
      +s "; HttpOnly" in
    let v = if cfg.cookie_domain == "" then v else v +s "; Domain=" +s cfg.cookie_domain in
    let v = if cfg.cookie_secure then v +s "; Secure" else v in
    v +s "; SameSite=" +s same_site cfg.cookie_same_site

abbrev pub clear_line : Config → String
clear_line cfg = cfg.cookie_name +s "=; Path=/; Max-Age=0; HttpOnly"
