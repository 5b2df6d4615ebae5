-- ===== src/Requests/Headers.antt =====
-- What the headers of a request hold.
use Prim.Native.String.{◌++◌}
use drishtiscope_oss.Common.{String, some, true, [], ◌∷◌, ◌≡◌, ap, ◌==◌, arith, if◌then◌else◌}
use drishtiscope_oss.Common.Text.{codes, to_lower, same_codes, same_codes_iff}
use drishtiscope_oss.Processes.{same_lower}
use drishtiscope_oss.Processes.Targets.{same_lower_self}
use drishtiscope_oss.Requests.{Headers, get, set_header, api_headers}

-- Names that are the same as a third name are found in the same way.
same_lower-congruent : (a b c : String) → same_lower a b ≡ true → same_lower a c ≡ same_lower b c
unfolding same_lower
same_lower-congruent a b c h =
    ap (λ t. same_codes t (to_lower (codes c)))
      ((same_codes_iff (to_lower (codes a)) (to_lower (codes b))).0 h)

get-set_header :
    (name value key : String) (hs : Headers)
    → get key (set_header name value hs) ≡ (if same_lower name key then some value else get key hs)
unfolding get set_header
get-set_header name value key [] = ground arith
get-set_header name value key ((k, v) ∷ hs) = ground (
  arith,
  get-set_header name value key hs,
  same_lower-congruent k name key,
  same_lower-congruent k key name,
  same_lower-congruent name key name,
  same_lower_self name,
)

-- With a token, a request carries it as its bearer authorization, whatever letter case the name is
-- looked up in, and any header of another name is what the caller gave; without one, the headers are
-- the caller's.
pub api_headers-get :
    (token key : String) (extra : Headers)
    → get key (api_headers token extra) ≡ (
        if token == ""
        then get key extra
        else if same_lower "Authorization" key
        then some ("Bearer " ++ token)
        else get key extra)
unfolding api_headers
api_headers-get token key extra =
    ground (arith, get-set_header "Authorization" ("Bearer " ++ token) key extra)
