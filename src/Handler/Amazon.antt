-- ===== src/Handler/Amazon.antt =====
-- AmazonUserMiddleware of handler/handler.go. `unmarshal` is what `json.Unmarshal` leaves in a new
-- user, `marshal` what `json.Marshal` makes of one.
pub mod LoginUser
use foundation_framework.Base.{
  String, code, ◌==◌, ◌≡◌, ◌≢◌, refl, Bool, true, false, Option, none, some, List, if◌then◌else◌,
  ◌=ˢ◌, eq_false,
}
use Prim.Native.String.{[], ◌∷◌}
use foundation_framework.Err.{Error, nil, is_nil}

-- `strings.HasPrefix(s, p)`, with the rest of `s` where it holds.
unfoldable pub strip_prefix : String → String → Option String
strip_prefix [] s = some s
strip_prefix (c ∷ p) [] = none
strip_prefix (c ∷ p) (d ∷ s) =
    let rest = strip_prefix p s in if code c == code d then rest else none

abbrev pub token_prefix : String
token_prefix = "Bearer "

pub record AmazonUser : Type 0 where
  pub id : String
  pub name : String
  pub account : String
  pub area_id : String
  pub org_code : String
  pub avatar : String
  pub phone : String
  pub roles : List String
  pub job : String

abbrev no_roles : List String
no_roles = List.[]

-- `new(dto.AmazonUser)`
abbrev pub new_amazon_user : AmazonUser
new_amazon_user = record {
  id = "";
  name = "";
  account = "";
  area_id = "";
  org_code = "";
  avatar = "";
  phone = "";
  roles = no_roles;
  job = "";
}

abbrev pub fixed_user : AmazonUser
fixed_user = record new_amazon_user { id = "632840"; name = "余俊杰" }

-- What one request finds: the texts that the two reads of the cache give, which are empty for a
-- missing key and an error; whether `LockFunc` gets its lock; and what `getUserInfo` returns.
pub record Surroundings : Type 0 where
  pub first : String
  pub second : String
  pub locks : Bool
  pub user_info : Option AmazonUser × Error

-- What one request does: whether it writes the response 401; the user and the text that `next` is
-- called with, if it is called; the text that it puts into the cache.
pub record Served : Type 0 where
  pub unauthorized : Bool
  pub next : Option (Option AmazonUser × String)
  pub cached : Option String

abbrev pub rejected : Served
rejected = record { unauthorized = true; next = none; cached = none }

abbrev pub passed : Option AmazonUser → String → Served
passed u json = record { unauthorized = false; next = some (u, json); cached = none }

module _ (unmarshal : String → AmazonUser) (marshal : AmazonUser → String) where
  -- The function under the lock, from `getUserInfo` on, and the call of `next` after it.
  fetched : Option AmazonUser → Bool → Served
  fetched none ok = record { unauthorized = true; next = some (none, ""); cached = none }
  fetched (some u) false = record { unauthorized = true; next = some (some u, ""); cached = none }
  fetched (some u) true = record {
    unauthorized = false;
    next = some (some u, marshal u);
    cached = some (marshal u);
  }

  -- A request with a token.
  with_token : Surroundings → Served
  unfolding fetched
  with_token w =
      if w.first =ˢ ""
      then (if w.locks
          then (if w.second =ˢ ""
              then fetched w.user_info.0 (is_nil w.user_info.1)
              else passed (some new_amazon_user) w.second)
          else passed (some new_amazon_user) "")
      else passed (some (unmarshal w.first)) w.first

  -- A request with what follows the prefix in its header.
  authorized : Option String → Surroundings → Served
  authorized none w = rejected
  authorized (some token) w = if token =ˢ "" then rejected else with_token w

  -- `Resolve`; `production` is whether the environment is PROD, `header` the one
  -- named `Authorization`.
  unfoldable pub resolve : Bool → String → Surroundings → Served
  unfolding authorized with_token fetched
  resolve false header w = passed (some fixed_user) (marshal fixed_user)
  resolve true header w = authorized (strip_prefix token_prefix header) w

  module _ (header token : String) (w : Surroundings)
      (bearer : strip_prefix token_prefix header ≡ some token) (full : token ≢ "") where
    -- A token that is not cached and that the user service knows passes as that user, who is cached.
    pub resolve_known :
        (u : AmazonUser)
        → w.first ≡ ""
        → w.locks ≡ true
        → w.second ≡ ""
        → w.user_info ≡ (some u, nil)
        → resolve true header w ≡ record {
          unauthorized = false;
          next = some (some u, marshal u);
          cached = some (marshal u);
        }
    unfolding resolve authorized with_token fetched
    resolve_known u f l s i = rw (bearer, eq_false token "" full, f, l, s, i) refl

    -- A token whose user is cached passes as that user, and nothing is written.
    pub resolve_cached :
        w.first ≢ "" → resolve true header w ≡ passed (some (unmarshal w.first)) w.first
    unfolding resolve authorized with_token
    resolve_cached f = rw (bearer, eq_false token "" full, eq_false w.first "" f) refl

    -- A token that the user service refuses is answered 401, and the handler behind the middleware
    -- runs all the same, with a nil user.
    refused_token_passes :
        (e : Error)
        → w.first ≡ ""
        → w.second ≡ ""
        → w.user_info ≡ (none, e)
        → w.locks ≡ true
        → resolve true header w
          ≡ record { unauthorized = true; next = some (none, ""); cached = none }
    unfolding resolve authorized with_token fetched
    refused_token_passes e f s i l = rw (bearer, eq_false token "" full, f, l, s, i) refl

    -- Without the lock the handler runs with an empty user, and there is no 401.
    pub unlocked_passes :
        w.first ≡ "" → w.locks ≡ false → resolve true header w ≡ passed (some new_amazon_user) ""
    unfolding resolve authorized with_token
    unlocked_passes f l = rw (bearer, eq_false token "" full, f, l) refl

    -- A user that another request has cached meanwhile is not read: the handler runs with an empty
    -- user.
    late_cache_empty_user :
        w.first ≡ ""
        → w.locks ≡ true
        → w.second ≢ ""
        → resolve true header w ≡ passed (some new_amazon_user) w.second
    unfolding resolve authorized with_token
    late_cache_empty_user f l s =
        rw (bearer, eq_false token "" full, f, l, eq_false w.second "" s) refl
