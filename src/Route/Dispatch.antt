-- ===== src/Route/Dispatch.antt =====
-- Which handler a request reaches: `is_fast_request` and `process_request` of src/http/http_route.c.
-- Whether a route of the framework takes the request is an argument.
use agent_httpd.Base.{
  ℕ, Bool, true, false, not, ◌&&◌, ◌||◌, [], ◌∷◌, drop, ltb, ◌==◌, if◌then◌else◌, Bytes, codes,
  after, same,
}
use agent_httpd.Host.{request_is_same_origin}
use agent_httpd.Route.{is_vite_proxy_route}
use agent_httpd.Route.Paths.{
  Settings, ends_query, is_cgi_request, is_logout_path, is_login_path, is_react_prefix_path,
  is_react_reserved_path, llm_is_chat_route, tools_api_is_route,
}

abbrev pub is_read : Bytes → Bool
is_read method = same method (codes "GET") || same method (codes "HEAD")

abbrev pub is_write : Bytes → Bool
is_write method =
    same method (codes "POST")
    || same method (codes "PUT")
    || same method (codes "PATCH")
    || same method (codes "DELETE")

-- `is_fast_request`, with the port of Vite.
abbrev pub is_fast_request : Settings → ℕ → Bytes → Bytes → ℕ → Bool
is_fast_request t port method path content_length =
    if not (is_read method || same method (codes "OPTIONS"))
    then false
    else if ltb 0 content_length
    then false
    else if llm_is_chat_route path method
    then false
    else if tools_api_is_route path method
    then false
    else if is_react_prefix_path t path && not (is_react_reserved_path path)
    then false
    else if is_cgi_request path
    then false
    else not (ltb 0 port && is_vite_proxy_route port content_length path)

-- What answers: the server itself, with a menu of methods or a status, or a handler.
pub data Action : Type 0 where
  health log_out log_in metrics forbidden : Action
  custom_route : Action
  not_allowed menu_of_reads menu_of_all not_implemented : Action
  cgi_redirect cgi_listing cgi_script : Action
  file : Action

-- The branch on a CGI path, by what stands behind `/cgi-bin`.
abbrev pub cgi_action : Bytes → Action
cgi_action [] = cgi_redirect
cgi_action (c ∷ []) = if c == b'/' then cgi_listing else cgi_script
cgi_action (c ∷ d ∷ s) = cgi_script

abbrev pub resource : Bytes → Action
resource path = if is_cgi_request path then cgi_action (drop 8 path) else file

-- The dispatch on the method.
abbrev pub by_method : Bytes → Bytes → Action
by_method method path =
    if is_read method
    then resource path
    else if is_write method
    then (if is_cgi_request path then resource path else not_allowed)
    else if same method (codes "OPTIONS")
    then (if is_cgi_request path then menu_of_all else menu_of_reads)
    else not_implemented

abbrev pub behind_gate : Bool → Bytes → Bytes → Action
behind_gate routed method path = if routed then custom_route else by_method method path

-- `process_request`, up to the call of the handler; `routed` is framework_route_dispatch's answer.
unfoldable pub process_request : Settings → Bool → Bytes → Bytes → Bytes → Bytes → Bytes → Action
process_request t routed method path site origin host =
    if ends_query (after (codes "/health") path)
    then health
    else if is_logout_path path
    then log_out
    else if is_login_path t path
    then log_in
    else if ends_query (after (codes "/metrics") path)
    then metrics
    else if is_write method && not (request_is_same_origin site origin host)
    then forbidden
    else behind_gate routed method path

-- The answers behind the origin check: all but its refusal and the four that come before it.
abbrev pub is_gated : Action → Bool
is_gated health = false
is_gated log_out = false
is_gated log_in = false
is_gated metrics = false
is_gated forbidden = false
is_gated _ = true
