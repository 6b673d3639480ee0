-- ===== src/Lib.antt =====
-- Verification of the Samaritan proxy (github.com/samaritan-proxy/samaritan): the Redis proxy, the
-- management of hosts that every processor shares, and the configuration with the controller that
-- drives the processors. Paths below are from the repository's root.
--
-- The configuration takes updates of services and puts events into a channel; the controller handles
-- them and starts, updates and stops a processor for each service. The Redis processor accepts
-- connections: a session reads requests in the Redis protocol and hands each to the handler of its
-- command, which answers it or makes requests of the upstream. The upstream routes each by the hash
-- slot of its key to the client of a host of the cluster, and the session writes the answers back in
-- the order of the requests. A processor keeps its hosts in a set, in which a monitor marks hosts
-- healthy and unhealthy, and from which a load balancer picks.
--
--   Redis.Resp, Redis.Errors   proc/redis/resp.go: RespValue and its constructors; the errors.
--   Redis.Equal                proc/redis/resp.go: Equal and String.
--   Redis.Reader               proc/redis/bufio.go: Reader (fill, PeekByte, ReadByte, ReadSlice,
--                              ReadBytes, Read, ReadFull) over a connection.
--   Redis.Codec                proc/redis/codec.go: btoi64 (Btoi), itoa (Itoa), decoder (Decode) and
--                              encoder (Encode).
--   Redis.Slot                 proc/redis/util.go: crc16 (Crc), hashtag (Hashtag), and the lookup of
--                              a slot in chooseHost of proc/redis/upstream.go.
--   Redis.Request              proc/redis/request.go: the requests that are split by key (Split), their
--                              responses (Merge, Parts), SCAN (Scan, Cursor) and the read-only
--                              commands (ReadOnly).
--   Redis.Compress             proc/redis/filter_compress.go: Do, Compress and Decompress (Defs), with the
--                              registry of proc/redis/compressor/compressor.go.
--   Redis.Nodes                proc/redis/slot.go: parseClusterNodesSlot (Segments, Ranges) and
--                              parseClusterNodes (Cluster).
--   Redis.Upstream             proc/redis/upstream.go: chooseHost and handleRedirection (Route), getClient
--                              and the clients by address (Clients, Connected), MakeRequest and the
--                              changes of the hosts (Hosts), updateSlots and the refresh (Slots, Refresh).
--   Redis.Client               proc/redis/upstream.go: client (Send, loopWrite, loopRead, handleResp,
--                              drainRequests, Stop).
--   Redis.Session              proc/redis/session.go: session (loopRead, loopWrite, Close).
--   Redis.Handlers             proc/redis/redis.go: handleRequest (Defs); proc/redis/handler.go: the
--                              table of commands (Table) and the handlers (Defs).
--   Redis.HotKey               proc/redis/hotkey/counter.go: Counter (Counter); collector.go: Collector,
--                              sortedHotKeys and logrithmCounter (Collector).
--   Config                     config/config.go: the handlers of updates; config/event.go: the events.
--   Controller                 controller/controller.go: the handlers of events.
--   Discovery                  config/discovery.go: svcDiscoveryClient (Subscribe, Unsubscribe, run,
--                              resubscribe, loopSend).
--   Tcp                        proc/tcp/proc.go: the calls of tcpProc on its hosts and configuration.
--   Host                       host/host.go: Host, Stats and Set.
--   Monitor                    proc/internal/hc/monitor.go: Monitor, on Host.
--   Balancer                   proc/internal/lb/lb.go: the three balancers.
--   Strconv                    ParseInt and FormatInt in base 10, which codec.go calls, as their
--                              documentation describes them.
--   Prelude                    lists, integers, bytes and association lists.
--
-- The connection is a parameter: an IoReader answers a read with bytes and an error, and the theorems
-- on decoding ask that a reader delivers its bytes, in chunks of any size (Redis.Reader.Stream). The
-- bufio.Writer is a parameter too, and so is the compressor, which reads back what it wrote. Byte
-- slices are values, so the chunk that sliceAlloc cuts slices from is left out, and so are the clock,
-- the logs, metrics and JSON output.
--
-- The decoder is recursive in the data that it reads, so its calls take fuel. Two units for a byte of
-- the value and one more are enough, as the round trip shows. A uint64 counter wraps; a uint16 in
-- crc16 does as well.
--
-- A host is a number by which a heap holds it, so that a set and a monitor share it. A nil host is not
-- modelled. Each call under the set's lock is one step, and the flag that MarkHostHealthy swaps before
-- it takes the lock belongs to that step. The byte counters, JSON and Random of host.go are left out.
-- A round of the monitor is the sequence of outcomes that its workers take from the channel.
--
-- The orders in which Go ranges over the map of a cluster's instances are arguments. A loop of the
-- parser that never ends is an outcome of its own, as is a panic.
--
-- A child of a split request gets its response and runs its hook in two steps, which the steps of the
-- other children may come between. The count of children is an int32 and is kept as its low 32 bits;
-- the raw request keeps every response it is given, and a second one would close a closed channel.
-- SCAN is modelled without its hooks: the node's response is rewritten and passed on. Convert changes
-- the body of the raw request, which nothing reads afterwards.
--
-- A client and a session are step relations over requests by number, and so is a discovery client
-- over names: each constructor is one action of one goroutine, and a channel that is full or empty
-- blocks the action. The calls of the upstream on its clients are taken one by one, as the lock
-- clientsMu orders them; the host that is drawn at random, the time and the outcome of a connection
-- are arguments of each call (Moment). The handlers read their surroundings from a record (Env).
-- The orders in which Go ranges over the maps of the collector, its time and its random numbers are
-- arguments.
--
-- A processor is an interface to the controller (ProcOps) with laws (ProcLaws) on the hosts that it
-- holds and on good configurations, which it starts with and takes; the TCP processor fills them
-- (Tcp.Laws), where a good configuration has a health check, since an update that drops it makes
-- ResetHealthCheck panic. The laws speak of hosts of one type under each address, as host.Set keeps
-- the healthy hosts by their types. After a panic nothing of the controller's state is meant.
-- Events are handled in the order of the channel. An event holds the endpoints that its service has
-- when it is put into the channel.
--
-- Not modelled: the chain of the Redis processor's filters and its hot key filter, the timers of
-- the refresh of the slots, the connections and the monitor of the TCP processor, the health
-- checkers, the hooks and the streams of discovery, the loading of the bootstrap file, hot restart,
-- and what is input and output around these (listener, admin, stats, logger, utilities); the
-- generated code of pb but for the equality of addresses.
pub mod Prelude
pub mod Strconv
pub mod Host
pub mod Balancer
pub mod Monitor
pub mod Redis
pub mod Config
pub mod Controller
pub mod Discovery
pub mod Tcp
