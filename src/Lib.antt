-- ===== src/Lib.antt =====
-- foundation-framework, a Go framework for services: an executor for XXL-JOB, errors and their HTTP
-- and gRPC results, a lock over Redis, a RabbitMQ client, transactions, JSON-RPC calls, service
-- registries and a gateway client. This library models the parts below and states what makes each of
-- them correct; paths are those of the repository.
--
-- Base: native numbers, lists, maps as association lists, ℤ for int64, decimal texts
--   (util/convertor/convertor.go: Int64ToString and StringToInt64 are `Base.Decimal`).
-- Err: err/err.go, err/biz/biz.go and err/comm/error.go. `Error` is a Go error as the framework
--   tells them apart; `Err.Biz` and `Err.Comm` have a function for each constructor;
--   `Err.Interceptor` is ErrorInterceptor.
-- Handler: handler/http_result.go and handler/handler.go, the results that clients see and the
--   middlewares, and GetRequestContext and GetLoginUser of common/security/context.go
--   (`Handler.Forwarding`, `Handler.Amazon.LoginUser`), with the gRPC status functions as parameters.
--   `Handler.Context` has every getter of context.go on contexts whose values carry their dynamic
--   types, `Handler.Dto` and `Handler.Page` common/dto/dto.go, and `Handler.UserInfo` getUserInfo.
-- Xxl: xxl/. `Xxl.Executor` is executor.go with the task objects on a heap, since all jobs of one
--   handler share a task; `Xxl.Executor.Events` is the step relation of requests, goroutine starts
--   and task ends. runTask and killTask hold the executor's mutex but callbacks do not, so both
--   take the list of callbacks that come between their test of the run list and the rest. `Xxl.Log` is
--   log_handler.go with taskLog, and `Xxl.Clear` its clearLog; `Xxl.Options` is optinos.go with
--   NewExecutor, and `Xxl.Registration` what the executor sends to the scheduler, with
--   the timer of `registry` in seconds.
-- Redis: redis/redis.go, with the two scripts of go-zero's RedisLock as the record
--   `Redis.Server.Redis` and their documented behaviour as `RedisLaws`. A blocking Lock takes the
--   list of what the other clients do in each of its sleeps; where the list ends it still waits. `Redis.Timed` is a round
--   of a timer whose job runs under a lock, as xxl/ and rabbitmq/ have them.
-- RabbitMq: rabbitmq/. `Listener` has the data, `Consume` the reply to one delivery, `Dead` the dead
--   messages and their retries, `Publish` a publication with confirmation, whose broker is an
--   argument: `go confirmOne` leaves a goroutine that waits, and what comes to it is a value of
--   `Arrivals`. `Reliable` has the messages kept in the database, which uses `Orm`, with the timers that
--   send them again and delete them in `Reliable.Timers`; the waiting goroutines are a list, and
--   `Reliable.ended` runs the callbacks of those that end.
--   `Topology` is RegisterListener with DeclareExchange and DeclareQueue as calls of the broker, and `Conn` the connection
--   with the goroutines that watch and renew it, as steps of `Conn.Event`.
-- Orm: the transactions of orm/gorm.go with Begin, Commit and Rollback of gorm as the record `Orm.Gorm`.
-- JsonRpc: RoundRobinSelector and Client.Call (`JsonRpc.Call`) of jsonrpc/jsonrpc.go.
-- Reg: reg/. `Reg.Resolver` is the gRPC resolver of nacos, `Reg.Discovery` what the two discoveries of
--   JSON-RPC share, with the callback and the retries of nacos and the rounds of consul below it, and
--   `Reg.Consul` the registration of services at consul with its heartbeats, over the record `Agent`.
--   `Reg.Build` is how a resolver of nacos is built from a URL, and `Reg.Registry` reg/nacos/nacos.go.
-- Shenyu: shenyu/shenyu.go, the registration of routes at the gateway; its client library is the
--   record `Client`.
-- Util: SplitArray of util/collection/collection.go, FigureOutListenOn of util/ip/ip.go
--   (`Util.ListenOn`), the maps of util/umap/map.go (`Util.Maps`), the nullable columns of
--   util/usql/sql.go (`Util.Usql`), and the texts of util/ustring/string.go (`Util.Strings`).
-- Config: conf/nacos/, the configuration centre, with the client of nacos as the record `Centre`.
-- Tests: each theorem at a concrete input.
--
-- Bounds: every recursion is structural but the printing of decimals, which is on `Acc`, and the loop
-- that repeats a subscription at nacos, which has fuel: for n + 1 retries n + 3 are enough. Loops that
-- wait for others go along a list of what those do. int64 and int32 conversions keep their range or
-- wrap-around; counters that the code only increments by one per event are natural numbers.
--
-- Arguments that stand for code of others: JSON encoding and decoding, gRPC statuses, the scripts of
-- the Redis lock, the broker, the registries and their clients, HTTP posts, errors of the database. A
-- request body of the executor is already decoded or refused (`Xxl.Dto.Body`).
--
-- Not modelled: log output, the creation of clients and servers by libraries, the migration of tables,
-- the registration at nacos, which a library does, the constructors of reg/consul/consul.go, and the
-- utilities other than those above, which call the standard library.
pub mod Base
pub mod Err
pub mod Handler
pub mod Xxl
pub mod Redis
pub mod Util
pub mod Reg
pub mod Shenyu
pub mod JsonRpc
pub mod Orm
pub mod RabbitMq
pub mod Config
mod Tests
