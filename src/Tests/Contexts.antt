-- ===== src/Tests/Contexts.antt =====
-- Contexts of requests on a small input.
use foundation_framework.Base.{ℕ, String, false, ◌≢◌, none, []}
use foundation_framework.Base.Int.{pos}
use foundation_framework.Err.{Error, nil}
use foundation_framework.Handler.Amazon.{AmazonUser, new_amazon_user}
use foundation_framework.Handler.Dto.{RequestContext, ShopSettings}
use foundation_framework.Handler.Context.{
  Context, panicked, resolve_context, get_request_context, get_x_request_context, get_request_id,
  get_shop_settings, get_login_user,
}
use foundation_framework.Handler.Context.Typed.{
  Served, arrives, resolved, read_settings, served_never_panics,
}

abbrev same : String → String
same s = s

abbrev unescapes : String → String × Error
unescapes s = (s, nil)

abbrev a_context : RequestContext
a_context = record {
  x_request_context = record {
    accept_currency = "";
    accept_language = "";
    client_ip = "";
    is_admin = false;
    login_id = "";
    request_client = "";
    shop_id = "";
    shop_settings = "{}";
    shop_timezone = "";
    user_agent = "";
    user_region = "";
    user_info = none;
    erp_info = none;
  };
  x_request_header = [];
  x_request_id = "7";
}

abbrev decodes_context : String → RequestContext × Error
decodes_context s = (a_context, nil)

abbrev decodes_settings : String → ShopSettings ℕ × Error
decodes_settings s = (
  record {
    currency_display_way = pos 0;
    currency_list = [];
    default_display_way = pos 0;
    default_language_mode = pos 0;
    language = [];
    main_currency = none;
    main_language = "";
    more_language = [];
    plugins = [];
    status = false;
    timezone = "";
    use_fixed_exchange_rate = pos 0;
    use_multiple_currency = pos 0;
  },
  nil,
)

abbrev decodes_user : String → AmazonUser × Error
decodes_user s = (new_amazon_user, nil)

abbrev bare : Context ℕ
bare = record { values = []; outgoing = []; incoming = [] }

-- A handler that has read the settings of its request.
abbrev served : Context ℕ
served =
    (get_shop_settings same unescapes same decodes_context decodes_settings decodes_user (
      resolve_context same unescapes same decodes_context decodes_settings decodes_user "{}"
        bare)).1

abbrev served-Served :
    Served same unescapes same decodes_context decodes_settings decodes_user served
served-Served = read_settings (resolved "{}" (arrives [] []))

served_never_panics_example :
    ((get_request_context same unescapes same decodes_context decodes_settings decodes_user
        served).0
      ≢ panicked)
    × ((get_x_request_context same unescapes same decodes_context decodes_settings decodes_user
          served).0
        ≢ panicked)
    × ((get_request_id same unescapes same decodes_context decodes_settings decodes_user served).0
        ≢ panicked)
    × ((get_shop_settings same unescapes same decodes_context decodes_settings decodes_user
          served).0
        ≢ panicked)
    × ((get_login_user same unescapes same decodes_context decodes_settings decodes_user served).0
        ≢ panicked)
served_never_panics_example =
    served_never_panics same unescapes same decodes_context decodes_settings decodes_user
      served-Served
