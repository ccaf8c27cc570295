-- ===== src/Route/Tests.antt =====
-- Routing and the login form: runs, and the theorems at concrete inputs.
use agent_httpd.Base.{
  ◌++◌, Bool, true, false, Option, some, none, [], ◌≡◌, refl, Bytes, codes, same, after, after_ci,
  past, before, drop_last_while,
}
use agent_httpd.Host.{behind_text, split_bare, split_host, request_is_same_origin}
use agent_httpd.LoginLimit.{blocked_for, success}
use agent_httpd.Route.{
  is_vite_proxy_route, is_websocket_upgrade, upgrade_loop, form_field, field_loop, decode_value,
  no_control, back_of, see_other, handle_login,
}
use agent_httpd.Route.Back.{own_path, no_backslash, printable, handle_login-IsSafe}
use agent_httpd.Route.Dispatch.{forbidden, log_in, cgi_listing, process_request}
use agent_httpd.Route.Paths.{Settings}

vite_page : is_vite_proxy_route 5173 0 (codes "/react/page") ≡ true
unfolding after same
vite_page = refl

-- The search for `websocket` runs on behind its line.
websocket_elsewhere :
    is_websocket_upgrade
      (codes "GET / HTTP/1.1\nUpgrade: h2c\nConnection: Upgrade\nX-Note: websocket\n")
    ≡ true
unfolding upgrade_loop after_ci after behind_text past before
websocket_elsewhere = refl

-- Of two fields with one name the first counts.
first_field : form_field (codes "a=1&b=2&a=3") (codes "a") 16 ≡ some (codes "1")
unfolding form_field field_loop decode_value same past before
first_field = refl

-- Of a broken escape the percent sign stays, and two bytes are lost.
broken_escape : form_field (codes "a=%zz1") (codes "a") 16 ≡ some (codes "%1")
unfolding form_field field_loop decode_value same past before
broken_escape = refl

split_header : back_of (codes "back=/%0d%0aX:1") ≡ codes "/"
unfolding form_field field_loop decode_value same past before no_control
split_header = refl

abbrev knows : Bytes → Bytes → Bool
knows user pass = same user (codes "u520")

abbrev new_session : Bytes → Option Bytes
new_session user = some (codes "t0" ++ user)

abbrev address : Bytes
address = codes "10.0.0.1"

abbrev post_body : Bytes
post_body = codes "username=u520&password=p%26"

logs_in :
    handle_login knows new_session
      (codes "POST")
      (codes "/login?back=/home")
      post_body
      []
      address
      none
      5
      6
    ≡ some (see_other (codes "t0u520") [] (codes "/home"), none)
unfolding handle_login form_field field_loop decode_value same past before no_control blocked_for
    success
logs_in = refl

handle_login-IsSafe_example :
    (own_path (codes "/home") ≡ true)
    × (no_backslash (codes "/home") ≡ true)
    × (printable (codes "/home") ≡ true)
handle_login-IsSafe_example =
    handle_login-IsSafe knows new_session (codes "POST") (codes "/login?back=/home") post_body []
      address none none 5 6 (see_other (codes "t0u520") [] (codes "/home")) logs_in

abbrev own_settings : Settings
own_settings = record { sessions = true; react_prefix = [] }

cross_site :
    process_request own_settings true
      (codes "POST")
      (codes "/api")
      []
      (codes "http://b.org")
      (codes "a.org")
    ≡ forbidden
unfolding process_request after same request_is_same_origin split_host split_bare past before
    drop_last_while behind_text
cross_site = refl

script_listing :
    process_request own_settings false (codes "GET") (codes "/cgi-bin/") [] [] [] ≡ cgi_listing
unfolding process_request after same before
script_listing = refl

-- The login form is reached from another page.
cross_site_login :
    process_request own_settings false
      (codes "POST")
      (codes "/login")
      []
      (codes "http://b.org")
      (codes "a.org")
    ≡ log_in
unfolding process_request after same past before
cross_site_login = refl
