-- ===== src/Requests.antt =====
-- frontend/src/utils/api.ts: the token in the headers of a request and in the address of the socket,
-- with `wsURL` of frontend/src/App.tsx, which makes that address. The token comes from the environment of the build and is an argument; the empty text is no token.
-- `Headers` and `URL` are the browser's: the headers are a list of names and values in which a name is
-- found in letters of either case, and the address with a parameter is a function that is given.
pub mod Headers
use Prim.Native.String.{◌++◌}
use drishtiscope_oss.Common.{String, Option, none, some, Bool, List, [], ◌∷◌, ◌==◌, if◌then◌else◌}
use drishtiscope_oss.Processes.{same_lower}

abbrev pub Headers : Type 0
Headers = List (String × String)

-- `h.get(name)`
unfoldable pub get : String → Headers → Option String
unfolding same_lower
get name [] = none
get name ((k, v) ∷ hs) = if same_lower k name then some v else get name hs

-- `h.set(name, value)`
unfoldable pub set_header : String → String → Headers → Headers
unfolding same_lower
set_header name value [] = (name, value) ∷ []
set_header name value ((k, v) ∷ hs) =
    let rest = set_header name value hs in
    if same_lower k name then (k, value) ∷ hs else (k, v) ∷ rest

unfoldable pub api_headers : String → Headers → Headers
unfolding set_header
api_headers token extra =
    if token == "" then extra else set_header "Authorization" ("Bearer " ++ token) extra

-- `with_param address token` is the address with the parameter access_token.
unfoldable pub authed_ws_url : (String → String → String) → String → String → String
authed_ws_url with_param token base = if token == "" then base else with_param base token

-- `wsURL` of frontend/src/App.tsx; the address of the build is the empty text where there is none.
unfoldable pub ws_url : String → String → String → String
ws_url build_url protocol host =
    if build_url == ""
    then (if protocol == "https:" then "wss:" else "ws:") ++ ("//" ++ (host ++ "/ws"))
    else build_url
