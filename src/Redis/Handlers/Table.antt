-- ===== src/Redis/Handlers/Table.antt =====
-- The commands and their handlers.
use samaritan.Prelude.{Option, List, [], ◌∷◌, ◌++◌, map, Bytes, bytes}
use samaritan.Prelude.Assoc.{lookup, insert}
use samaritan.Redis.Request.ReadOnly.{to_lower}

-- The handlers, each by the name of its function.
pub data Handler : Type 0 where
  handle_simple_command handle_sum_result_command : Handler
  handle_mset handle_mget handle_eval handle_scan handle_hot_key : Handler
  handle_ping handle_quit handle_info handle_time handle_select : Handler

abbrev key_commands : List Bytes
key_commands = map bytes (
    "dump" ∷ "expire" ∷ "expireat" ∷ "persist" ∷ "pexpire" ∷ "pexpireat" ∷ "pttl" ∷ "restore"
    ∷ "sort" ∷ "ttl" ∷ "type" ∷ [])

abbrev string_commands : List Bytes
string_commands = map bytes (
    "append" ∷ "bitcount" ∷ "bitpos" ∷ "decr" ∷ "decrby" ∷ "get" ∷ "getbit" ∷ "getrange" ∷ "getset"
    ∷ "incr" ∷ "incrby" ∷ "incrbyfloat" ∷ "psetex" ∷ "set" ∷ "setbit" ∷ "setex" ∷ "setnx"
    ∷ "setrange" ∷ "strlen" ∷ [])

abbrev hash_commands : List Bytes
hash_commands = map bytes (
    "hdel" ∷ "hexists" ∷ "hget" ∷ "hgetall" ∷ "hincrby" ∷ "hincrbyfloat" ∷ "hkeys" ∷ "hlen"
    ∷ "hmget" ∷ "hmset" ∷ "hset" ∷ "hsetnx" ∷ "hstrlen" ∷ "hvals" ∷ "hscan" ∷ [])

abbrev list_commands : List Bytes
list_commands = map bytes (
    "lindex" ∷ "linsert" ∷ "llen" ∷ "lpop" ∷ "lpush" ∷ "lpushx" ∷ "lrange" ∷ "lrem" ∷ "lset"
    ∷ "ltrim" ∷ "rpop" ∷ "rpoplpush" ∷ "rpush" ∷ "rpushx" ∷ [])

abbrev set_commands : List Bytes
set_commands = map bytes (
    "sadd" ∷ "scard" ∷ "sdiff" ∷ "sdiffstore" ∷ "sinter" ∷ "sinterstore" ∷ "sismember" ∷ "smembers"
    ∷ "smove" ∷ "spop" ∷ "srandmember" ∷ "srem" ∷ "sunion" ∷ "sunionstore" ∷ "sscan" ∷ [])

abbrev sorted_set_commands : List Bytes
sorted_set_commands = map bytes (
    "zadd" ∷ "zcard" ∷ "zcount" ∷ "zincrby" ∷ "zinterstore" ∷ "zlexcount" ∷ "zrange" ∷ "zrangebylex"
    ∷ "zrangebyscore" ∷ "zrank" ∷ "zrem" ∷ "zremrangebylex" ∷ "zremrangebyrank" ∷ "zremrangebyscore"
    ∷ "zrevrange" ∷ "zrevrangebylex" ∷ "zrevrangebyscore" ∷ "zrevrank" ∷ "zscore" ∷ "zunionstore"
    ∷ "zscan" ∷ "pfadd" ∷ "pfcount" ∷ "pfmerge" ∷ [])

abbrev geo_commands : List Bytes
geo_commands =
    map bytes ("geoadd" ∷ "geodist" ∷ "geohash" ∷ "geopos" ∷ "georadius" ∷ "georadiusbymember" ∷ [])

abbrev pub simple_commands : List Bytes
simple_commands =
    key_commands
    ++ (string_commands
        ++ (hash_commands
            ++ (list_commands ++ (set_commands ++ (sorted_set_commands ++ geo_commands)))))

abbrev pub sum_result_commands : List Bytes
sum_result_commands = map bytes ("del" ∷ "exists" ∷ "touch" ∷ "unlink" ∷ [])

abbrev pub other_handlers : List (Bytes × Handler)
other_handlers =
    (bytes "eval", handle_eval)
    ∷ (bytes "mset", handle_mset)
    ∷ (bytes "mget", handle_mget)
    ∷ (bytes "scan", handle_scan)
    ∷ (bytes "hotkey", handle_hot_key)
    ∷ (bytes "ping", handle_ping)
    ∷ (bytes "quit", handle_quit)
    ∷ (bytes "info", handle_info)
    ∷ (bytes "time", handle_time)
    ∷ (bytes "select", handle_select)
    ∷ []

abbrev pub Handlers : Type 0
Handlers = List (Bytes × Handler)

-- addHandler, once for each of a list.
unfoldable pub add_handlers : List (Bytes × Handler) → Handlers → Handlers
unfolding insert
add_handlers [] hs = hs
add_handlers ((cmd, h) ∷ more) hs = add_handlers more (insert cmd h hs)

abbrev pub all_with : Handler → List Bytes → List (Bytes × Handler)
all_with h cmds = map (λ cmd. (cmd, h)) cmds

unfoldable pub init_command_handlers : Handlers
unfolding add_handlers
init_command_handlers = add_handlers other_handlers (
    add_handlers (all_with handle_sum_result_command sum_result_commands)
      (add_handlers (all_with handle_simple_command simple_commands) []))

-- Commands are in ASCII.
unfoldable pub find_handler : Bytes → Option Handler
unfolding init_command_handlers lookup to_lower
find_handler cmd = lookup (to_lower cmd) init_command_handlers
