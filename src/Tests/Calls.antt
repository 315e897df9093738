-- ===== src/Tests/Calls.antt =====
-- A JSON-RPC call, the user that a called service reads, a registration of listeners, a connection,
-- a path into a map, and the logs of a job.
use foundation_framework.Base.{String, ◌≡◌, refl, true, false, none, some, [], ◌∷◌, ◌↔◌, ℕ, List}
use foundation_framework.Base.Int.{pos}
use foundation_framework.Base.Dict
use foundation_framework.Xxl.Dto.{LogReq}
use foundation_framework.Xxl.Log.{LogPo}
use foundation_framework.Base.Split.{join, no_sep}
use foundation_framework.Util.Maps.{
  dot, Fields, field, empty, object, scalar, get, get_value_by_key_path, Leads, last, inside,
  get_value_by_key_path_iff,
}
use foundation_framework.RabbitMq.Conn.{new_conn, run, lost, closed, due_re_connect, refused}
use foundation_framework.RabbitMq.Conn.Watched.{IsWatched, run-IsWatched}
use foundation_framework.Err.{Error, nil}
use foundation_framework.JsonRpc.{selector, next_index, picked}
use foundation_framework.JsonRpc.Call.{
  Response, Selector, Client, Called, Encoding, call, selected_call, with_address, with_data,
  with_answer, with_body, with_response, with_result, failed, request_body,
}
use foundation_framework.JsonRpc.Call.Answered.{Selected, call-Selected}
use foundation_framework.Handler.Amazon.{
  AmazonUser, new_amazon_user, Surroundings, fixed_user, strip_prefix, resolve,
}
use foundation_framework.Handler.Amazon.LoginUser.{SeenBy, get_login_user-resolve}
use foundation_framework.RabbitMq.Listener.{Listener, DeliveryMirror, finished}
use foundation_framework.RabbitMq.Dead.{DeadMsgs}
use foundation_framework.RabbitMq.Topology.{Conf, Call}

abbrev plain_text : Encoding String String String String
plain_text = record {
  marshal_body = λ b. (b.params, nil);
  unmarshal_response = λ s. (record { result = s; error = none }, nil);
  marshal_result = λ r. (r, nil);
  unmarshal_reply = λ s r. (s, nil);
}

abbrev echo : String → String → Response × Error
echo url text = (record { status_code = 200; body = (text, nil) }, nil)

abbrev one_address : Selector
one_address = record {
  round_robin = record { service_name = "users"; index = 0 };
  services = "10.0.0.1:80" ∷ [];
}

abbrev one_client : Client
one_client = record { discovery_map = ("users", one_address) ∷ [] }

abbrev pong : Called String
pong = record { error = nil; reply = "ping"; posted = some ("http://10.0.0.1:80", "ping") }

call-echoes :
    (call plain_text [] echo (pos 0) "users" "Ping" "ping" none "" one_client).1 ≡ some pong
unfolding call selected_call with_address with_data with_answer with_body with_response with_result
    failed selector picked next_index request_body Dict.get
call-echoes = refl

call-Selected_example :
    (s : Selector) × (Dict.get one_client.discovery_map "users" ≡ some s)
    × Selected plain_text [] echo (pos 0) "Ping" "ping" none "" s pong
call-Selected_example =
    call-Selected plain_text [] echo (pos 0) "users" "Ping" "ping" none "" one_client pong
      call-echoes refl

abbrev with_quotes : String → String × Error
with_quotes s = (s, nil)

abbrev same_text : String → String
same_text s = s

abbrev new_user : String → AmazonUser
new_user s = new_amazon_user

abbrev braces : AmazonUser → String
braces u = "{}"

abbrev to_fixed : String → AmazonUser × Error
to_fixed s = (fixed_user, nil)

abbrev found_user : Surroundings
found_user = record { first = ""; second = ""; locks = true; user_info = (some fixed_user, nil) }

get_login_user-resolve_example :
    SeenBy same_text with_quotes to_fixed
      (resolve new_user braces true "Bearer t" found_user).next
      fixed_user
unfolding strip_prefix
get_login_user-resolve_example =
    get_login_user-resolve same_text with_quotes to_fixed new_user braces "Bearer t" "t" found_user
      fixed_user refl (λ h. absurd (cc)) refl refl refl refl refl refl (λ h. absurd (cc))

abbrev dead_names : Conf
dead_names = record { dead_exchange_name = "dead"; dead_queue_name = "dead_queue" }

abbrev mirror : DeliveryMirror → String × Error
mirror m = ("{}", nil)

abbrev bills : Listener DeadMsgs
bills = record {
  coroutine_num = 1;
  consumer_param = record {
    consumer = "c";
    auto_ack = false;
    exclusive = false;
    no_local = false;
    no_wait = false;
    args = [];
  };
  ack_param = record { multiple = false; requeue = true };
  queue_declare_param = record {
    queue_name = "bills";
    durable = true;
    auto_delete = false;
    exclusive = false;
    no_wait = false;
    routing_key = "bills";
    exchange_name = "shop";
  };
  on_delivery = λ d t. (t, d, finished nil);
}

abbrev accepts : Call → Error
accepts k = nil

run-IsWatched_example : IsWatched (run (lost ∷ due_re_connect refused ∷ closed ∷ []) new_conn)
run-IsWatched_example = run-IsWatched (lost ∷ due_re_connect refused ∷ closed ∷ [])

abbrev nested : Fields
nested = field "user" (object (field "name" (scalar "Ann") empty)) empty

get_value_by_key_path_iff_example :
    (get_value_by_key_path nested (join dot ("user" ∷ "name" ∷ [])) ≡ some (scalar "Ann"))
    ↔ Leads nested ("user" ∷ "name" ∷ []) (scalar "Ann")
unfolding no_sep
get_value_by_key_path_iff_example =
    get_value_by_key_path_iff nested "user" ("name" ∷ []) (scalar "Ann") refl (refl, tt)

nested-Leads : Leads nested ("user" ∷ "name" ∷ []) (scalar "Ann")
unfolding get
nested-Leads = inside refl (last refl)

abbrev clock : ℕ → String
clock n = "2024-01-01 00:00:00"

abbrev printed : Error → String
printed e = "error"

abbrev two_logs : List LogPo
two_logs =
    record { log_id = pos 1; level = 0; text = "begin"; created_at = 5 }
    ∷ record { log_id = pos 2; level = 1; text = "failed"; created_at = 7 }
    ∷ []

abbrev second_log : LogReq
second_log = record { log_date_tim = pos 0; log_id = pos 2; from_line_num = pos 1 }
