-- ===== src/Handler/UserInfo.antt =====
-- `getUserInfo` of handler/handler.go. The form encoding, `md5.Encode`, `json.Unmarshal` and the HTTP
-- exchange are parameters.
use foundation_framework.Base.{
  ℕ, String, ◌≡◌, refl, Option, none, some, List, [], ◌∷◌, if◌then◌else◌, ◌=ˢ◌,
}
use foundation_framework.Base.Int.{ℤ}
use foundation_framework.Base.Decimal.{format_int}
use foundation_framework.Err.{Error, nil, is_nil, ◌<>◌}
use foundation_framework.Handler.Amazon.{AmazonUser}

-- A decoded JSON value, as `any` holds it; `other` is a number or a Boolean.
mutual
  pub data Json : Type 0 where
    null : Json
    text : String → Json
    other : String → Json
    array : Items → Json
    object : Fields → Json

  pub data Items : Type 0 where
    end : Items
    item : Json → Items → Items

  pub data Fields : Type 0 where
    empty : Fields
    field : String → Json → Fields → Fields

-- `m[key]`: nil for a missing key and for the JSON `null`.
unfoldable pub get : Fields → String → Json
get empty key = null
get (field j v m) key = if j =ˢ key then v else get m key

-- The type assertions: `none` where one panics.
unfoldable pub as_text : Json → Option String
as_text (text s) = some s
as_text null = none
as_text (other s) = none
as_text (array xs) = none
as_text (object m) = none

unfoldable pub as_object : Json → Option Fields
as_object (object m) = some m
as_object null = none
as_object (text s) = none
as_object (other s) = none
as_object (array xs) = none

unfoldable pub as_array : Json → Option Items
as_array (array xs) = some xs
as_array null = none
as_array (text s) = none
as_array (other s) = none
as_array (object m) = none

infixl 1 ◌>>=◌
-- The rest of the function after an assertion.
abbrev ◌>>=◌ : {A B : Type 0} → Option A → (A → Option B) → Option B
none >>= f = none
some a >>= f = f a

-- The loop over `roles`.
unfoldable pub texts : Items → Option (List String)
unfolding as_text
texts end = some []
texts (item v xs) = do role ← as_text v; roles ← texts xs; some (role ∷ roles)

-- The user in the field `data`: the assertions in the order of the code.
unfoldable pub user_of : Fields → Option AmazonUser
unfolding as_object as_array texts as_text get
user_of m = do
  d ← as_object (get m "data")
  xs ← as_array (get d "roles")
  roles ← texts xs
  id ← as_text (get d "id")
  name ← as_text (get d "name")
  account ← as_text (get d "account")
  area_id ← as_text (get d "area_id")
  org_code ← as_text (get d "org_code")
  avatar ← as_text (get d "avatar")
  phone ← as_text (get d "phone")
  job ← as_text (get d "job")
  some (record {
    id = id;
    name = name;
    account = account;
    area_id = area_id;
    org_code = org_code;
    avatar = avatar;
    phone = phone;
    roles = roles;
    job = job;
  })

-- The list of texts as JSON.
unfoldable pub items : List String → Items
items [] = end
items (s ∷ ss) = item (text s) (items ss)

texts-items : (ss : List String) → texts (items ss) ≡ some ss
unfolding texts items as_text
texts-items [] = refl
texts-items (s ∷ ss) = rw (texts-items ss) refl

-- The fields `d` describe a user.
pub record Describes (d : Fields) (u : AmazonUser) : Type 0 where
  pub id : get d "id" ≡ text u.id
  pub name : get d "name" ≡ text u.name
  pub account : get d "account" ≡ text u.account
  pub area_id : get d "area_id" ≡ text u.area_id
  pub org_code : get d "org_code" ≡ text u.org_code
  pub avatar : get d "avatar" ≡ text u.avatar
  pub phone : get d "phone" ≡ text u.phone
  pub roles : get d "roles" ≡ array (items u.roles)
  pub job : get d "job" ≡ text u.job

user_of-Describes :
    (m d : Fields) (u : AmazonUser) → get m "data" ≡ object d → Describes d u → user_of m ≡ some u
unfolding user_of as_object as_array as_text
user_of-Describes m d u e h =
    rw
      (
        e,
        h.roles,
        texts-items u.roles,
        h.id,
        h.name,
        h.account,
        h.area_id,
        h.org_code,
        h.avatar,
        h.phone,
        h.job,
      )
      refl

-- The request: URL, form and headers.
pub record Request : Type 0 where
  pub url : String
  pub body : String
  pub token : String
  pub timestamp : String
  pub sign : String

pub record Response : Type 0 where
  pub status_code : ℕ
  pub read_error : Error
  pub body : String

-- What `getUserInfo` returns, or its panic.
pub data Outcome : Type 0 where
  returned : Option AmazonUser → Error → Outcome
  panicked : Outcome

asserted : Option AmazonUser → Outcome
asserted (some u) = returned (some u) nil
asserted none = panicked

module _ (encode_form : String → String) (md5 : String → String)
    (unmarshal : String → Fields × Error) where
  -- The request for a token at a Unix time.
  unfoldable pub request : String → ℤ → Request
  request token now = record {
    url = "https://gateway.giikin.cn/gsso/sso/getUserInfo";
    body = encode_form token;
    token = token;
    timestamp = format_int now;
    sign = md5 (format_int now <> token);
  }

  -- A response, whose status code is not looked at.
  read : Response → Outcome
  unfolding asserted user_of
  read r =
      let (m, e) = unmarshal r.body in
      if is_nil r.read_error
      then (if is_nil e then asserted (user_of m) else returned none e)
      else returned none r.read_error

  -- The response, nil for `none`: `response.Body` is read for the deferred `Close` before `err` is
  -- looked at.
  exchanged : Option Response × Error → Outcome
  unfolding read
  exchanged (none, e) = panicked
  exchanged (some r, e) = if is_nil e then read r else returned none e

  -- `getUserInfo`, with the error of `http.NewRequest`, and `client.Do`.
  unfoldable pub get_user_info : Error → (Request → Option Response × Error) → String → ℤ → Outcome
  unfolding exchanged request
  get_user_info new_request send token now =
      if is_nil new_request then exchanged (send (request token now)) else returned none new_request

  -- A response whose object `data` describes a user yields this user, whatever its status code is.
  get_user_info-Describes :
      (send : Request → Option Response × Error) (token : String) (now : ℤ) (r : Response)
      (m d : Fields) (u : AmazonUser)
      → send (request token now) ≡ (some r, nil)
      → r.read_error ≡ nil
      → unmarshal r.body ≡ (m, nil)
      → get m "data" ≡ object d
      → Describes d u
      → get_user_info nil send token now ≡ returned (some u) nil
  unfolding get_user_info exchanged read asserted
  get_user_info-Describes send token now r m d u s re je e h =
      rw (s, re, je, user_of-Describes m d u e h) refl

  -- An exchange that fails without a response panics, where its error should be returned.
  failed_exchange_panics :
      (send : Request → Option Response × Error) (token : String) (now : ℤ) (e : Error)
      → send (request token now) ≡ (none, e)
      → get_user_info nil send token now ≡ panicked
  unfolding get_user_info exchanged
  failed_exchange_panics send token now e s = rw s refl
