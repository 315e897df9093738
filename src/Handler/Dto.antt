-- ===== src/Handler/Dto.antt =====
-- common/dto/dto.go: what services pass on about a request, and pages. A `float64` is of the type
-- `F`.
use foundation_framework.Base.{String, Bool, Option, List}
use foundation_framework.Base.Dict.{Dict}
use foundation_framework.Base.Int.{ℤ}

-- `ClientType`
abbrev pub seller : String
seller = "seller"

abbrev pub buyer : String
buyer = "buyer"

abbrev pub admin : String
admin = "admin"

pub record UserInfo : Type 0 where
  pub user_id : String
  pub user_name : String
  pub email : String
  pub status : String
  pub preferred_language : String

pub record ErpInfo : Type 0 where
  pub erp_id : ℤ
  pub is_owner : Bool

-- `XReqeustContext`
pub record XRequestContext : Type 0 where
  pub accept_currency : String
  pub accept_language : String
  pub client_ip : String
  pub is_admin : Bool
  pub login_id : String
  pub request_client : String
  pub shop_id : String
  pub shop_settings : String
  pub shop_timezone : String
  pub user_agent : String
  pub user_region : String
  pub user_info : Option UserInfo
  pub erp_info : Option ErpInfo

pub record RequestContext : Type 0 where
  pub x_request_context : XRequestContext
  pub x_request_header : Dict String
  pub x_request_id : String

pub record MainCurrency : Type 0 where
  pub currency_id : ℤ
  pub code : String
  pub decimal_length : ℤ
  pub symbol : String

pub record Currency (F : Type 0) : Type 0 where
  pub code : String
  pub decimal_length : ℤ
  pub symbol : String
  pub rate : F

pub record ShopSettings (F : Type 0) : Type 0 where
  pub currency_display_way : ℤ
  pub currency_list : List (Currency F)
  pub default_display_way : ℤ
  pub default_language_mode : ℤ
  pub language : List String
  pub main_currency : Option MainCurrency
  pub main_language : String
  pub more_language : List String
  pub plugins : List ℤ
  pub status : Bool
  pub timezone : String
  pub use_fixed_exchange_rate : ℤ
  pub use_multiple_currency : ℤ
