-- ===== src/Redis/Request/ReadOnly.antt =====
-- simpleRequest.IsReadOnly, with the commands of proc/redis/handler.go. Commands are in ASCII.
use samaritan.Prelude.{
  ℕ, ◌+◌, Bool, false, ◌&&◌, ◌||◌, List, [], ◌∷◌, map, Bytes, bytes, bytes_equal, leb,
  if◌then◌else◌,
}
use samaritan.Redis.Resp.{RespValue, text, bytes_of}

abbrev pub read_only_commands : List Bytes
read_only_commands = map bytes (
    "dump" ∷ "pttl" ∷ "sort" ∷ "ttl" ∷ "type" ∷ "exists" ∷ "bitcount" ∷ "bitpos" ∷ "get" ∷ "getbit"
    ∷ "getrange" ∷ "strlen" ∷ "lindex" ∷ "llen" ∷ "lrange" ∷ "geoadd" ∷ "hexists" ∷ "hget"
    ∷ "hgetall" ∷ "hkeys" ∷ "hlen" ∷ "hmget" ∷ "hstrlen" ∷ "hvals" ∷ "hscan" ∷ "scard" ∷ "sdiff"
    ∷ "sinter" ∷ "sismember" ∷ "smembers" ∷ "srandmember" ∷ "sunion" ∷ "sscan" ∷ "zcard" ∷ "zcount"
    ∷ "zlexcount" ∷ "zrange" ∷ "zrangebylex" ∷ "zrangebyscore" ∷ "zrank" ∷ "zrevrange"
    ∷ "zrevrangebylex" ∷ "zrevrangebyscore" ∷ "zrevrank" ∷ "zscore" ∷ "zscan" ∷ "pfcount" ∷ [])

abbrev lower : ℕ → ℕ
lower c = if leb b'A' c && leb c b'Z' then c + 32 else c

unfoldable pub to_lower : Bytes → Bytes
to_lower b = map lower b

abbrev is_among : List Bytes → Bytes → Bool
is_among [] cmd = false
is_among (c ∷ cs) cmd = bytes_equal c cmd || is_among cs cmd

-- Of a body with at least a command; the code panics on an empty one, which no handler passes on.
unfoldable pub is_read_only : List RespValue → Bool
unfolding to_lower
is_read_only [] = false
is_read_only (command ∷ args) = is_among read_only_commands (to_lower (bytes_of (text command)))
