-- ===== src/Route/Paths.antt =====
-- The tests of paths that routing asks: is_cgi_request of src/http/static.c, is_logout_path and
-- is_login_path of src/security/auth.c, the React paths of src/core/framework.c, llm_is_chat_route of
-- src/agent/llm.c and tools_api_is_route of src/agent/tools_api.c.
use agent_httpd.Base.{
  Bool, true, false, ◌&&◌, ◌||◌, Option, none, some, List, [], ◌∷◌, ◌==◌, if◌then◌else◌, Bytes,
  codes, after, is_some, before, same,
}

-- What the configuration says: whether sessions are on, and `g_react_prefix`.
pub record Settings : Type 0 where
  pub sessions : Bool
  pub react_prefix : Bytes

abbrev pub ends_slash : Option Bytes → Bool
ends_slash none = false
ends_slash (some []) = true
ends_slash (some (c ∷ s)) = c == b'/'

abbrev pub ends_query : Option Bytes → Bool
ends_query none = false
ends_query (some []) = true
ends_query (some (c ∷ s)) = c == b'?'

abbrev pub ends_either : Option Bytes → Bool
ends_either o = ends_slash o || ends_query o

abbrev pub is_cgi_request : Bytes → Bool
is_cgi_request path = ends_slash (after (codes "/cgi-bin") path)

abbrev pub is_logout_path : Bytes → Bool
is_logout_path path = same (before b'?' path) (codes "/logout")

abbrev pub is_login_path : Settings → Bytes → Bool
is_login_path e path = e.sessions && same (before b'?' path) (codes "/login")

abbrev pub prefix_of : Bytes → Bytes
prefix_of [] = codes "/react"
prefix_of (c ∷ s) = c ∷ s

abbrev pub is_react_prefix_path : Settings → Bytes → Bool
is_react_prefix_path e path =
    let prefix = prefix_of e.react_prefix in
    same prefix (codes "/") || ends_either (after prefix path)

abbrev pub any_prefix : List Bytes → Bytes → Bool
any_prefix [] path = false
any_prefix (p ∷ ps) path = is_some (after p path) || any_prefix ps path

abbrev pub any_part : List Bytes → Bytes → Bool
any_part [] path = false
any_part (p ∷ ps) path = ends_either (after p path) || any_part ps path

abbrev pub is_react_reserved_path : Bytes → Bool
is_react_reserved_path path =
    any_prefix (codes "/api/" ∷ codes "/assets/" ∷ codes "/js/" ∷ []) path
    || any_part
        (codes "/api"
          ∷ codes "/assets"
          ∷ codes "/js"
          ∷ codes "/cgi-bin"
          ∷ codes "/health"
          ∷ codes "/metrics"
          ∷ codes "/login"
          ∷ codes "/logout"
          ∷ codes "/favicon.ico"
          ∷ [])
        path

abbrev pub llm_is_chat_route : Bytes → Bytes → Bool
llm_is_chat_route path method =
    ends_query (after (codes "/react/api/chat") path) && same method (codes "POST")

abbrev pub tools_api_is_route : Bytes → Bytes → Bool
tools_api_is_route path method =
    if same path (codes "/react/api/tools")
    then same method (codes "GET")
    else same path (codes "/react/api/tools/call") && same method (codes "POST")
