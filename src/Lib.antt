-- ===== src/Lib.antt =====
-- The Go SDK of AHAS, https://github.com/insomniasary/aliyun-ahas: the client that a process keeps to
-- talk to the AHAS gateway.
--
-- The parts and how they interact. A process has one client (gateway/gateway.go), which holds a pool of
-- connections (gateway/conn.go), taken in turn by a ring (gateway/ring.go). `Call` makes a message,
-- writes it on a connection in the format of gateway/protocol.go and waits for the response
-- (gateway/sync.go). One goroutine for each connection (gateway/read.go) decodes what arrives, gives
-- responses to the calls that wait, and answers the requests of the gateway by handlers. A controller
-- (service/service.go) starts and stops each service of the SDK. The package transport sends requests
-- through the client and answers those that come through it: an invoker adds a timestamp and a signature by
-- a chain of interceptors, and a handler lets a request pass by the same chain.
-- The start (init.go) loads the configuration (config/config.go), finds out where the process is
-- (meta, aliyun), makes and connects the transport (transport/transport.go), registers the handlers of
-- sentinel/handler, starts the heartbeat (heartbeat), and leaves a goroutine that listens to the rules
-- (sentinel/datasource), which waits for the tenant that the connection has sent into a channel.
--
-- Files. Common: shared names, tests, lists, texts (a Go string is the list of its bytes), results (a Go
-- function gives a value, an error, a panic, or does not end), decimal numbers, and chains of calls that
-- change the outside world (Common/Actions). Gateway/Message: `AgwMessage`. Gateway/Wire:
-- `binary.BigEndian`. Gateway/Stream: the parameter for bufio.Reader with its contract. Gateway/Decoder:
-- the read loops. Gateway/Codec: `Decode` and `Encode`, with its laws in Codec/RoundTrip, Codec/Truncated
-- and Codec/Total. Gateway/Sync: `wait`, `notify` and the loop of `close` as a transition system over the
-- shared `sync.Map` and the channels; an action is one access of these, and `Reach` gives the states that
-- interleavings lead to. Gateway/Ring: `newRing`, `add`, `next`, and in Ring/Races the atomic accesses of
-- concurrent callers. Gateway/Pool: `get`, `remove`, `write`, `writeSync`. Gateway/Tls: `getTlsConn`.
-- Gateway/Singleton: `GetAgwClientInstance`, as a transition system like Gateway/Sync. Gateway/Log: gateway/log.go. Gateway/Ip: `StringIpToUint64`
-- with what it uses of strings and strconv. Gateway/Client: `Init`, `Call`, `innerCall` and the heartbeat
-- of the gateway. Gateway/Reader: `runReaderCoroutine`, `handleRequest`, `AddHandler`. Gateway/Marks:
-- gateway/tsutil.go. Service: `Start`, `Stop`, `IsStopped`. Tools/Gzip, Tools/File and
-- Tools/Archive: tools/file.go, the last on Tools/Disk (a tree of directories and files) and Tools/Runes (`[]rune`).
-- Tools/Auth: `Sign`, `Auth`, `splitToChunk`, `SaveMetadataToFile`. Tools/Aes: `DecryptAES`.
-- Tools/Channel: tools/channel.go, tools/uuid.go and tools/panic.go. Tools/Constants: tools/env.go.
-- Transport/Response, Transport/Request, Transport/Interceptor, Transport/Handler, Transport/Invoker: the
-- files of transport with these names; Transport/Connect and Transport/Start: transport/transport.go.
-- Logger: logger/logging.go. Config: config/config.go. Aliyun: aliyun/aliyun.go. Meta: the package meta (Meta/Interfaces: `resolvePrivateIp`).
-- Heartbeat: the package heartbeat. Sentinel/Rules, with Rules/Hotspot: sentinel/datasource/rule_model.go; Sentinel/Acm:
-- sentinel/datasource/acm.go; Sentinel/Metric and Sentinel/Nodes: sentinel/handler. Startup: init.go, whose
-- stages are composed of the functions of the other parts. Files named Tests hold concrete runs, and those
-- named Samples the values that several of them use.
--
-- State. A record stands for each struct, with the fields' names; code that changes state takes the old
-- state and gives the new one. The outside world (network, files, other goroutines at a lock) is a type
-- parameter that the functions for it take on. `Process` holds the variables of the packages.
--
-- Bounds and fuel. Numbers are naturals; a field's width is a hypothesis where it matters, and the
-- wrap-around of the code's own additions, products and shifts is written out; an int64 that the code
-- computes with is the number of its 64 bits. The loop that fills a buffer of n bytes has n rounds of fuel,
-- which is enough since each round that goes on fills one byte at least. The endless loops of the reader
-- and of the heartbeats have a number of rounds, for the heartbeats the ticks that are received.
--
-- Not modelled: what is written to logs and the marks that calls take for it, sleeps, the getters of a field, the
-- program in example, and the HTTP handlers for debugging, which nothing turns on. The disk has no symbolic links,
-- and what may not be made or written on it is a parameter. compress/gzip, archive/tar, crypto/tls and bufio.Reader are
-- parameters, whose documented behaviour is a named hypothesis where it matters (`IsInverse`, `AcceptsAny`,
-- `IsStream`); so are base64, md5 and the block cipher of AES, json, yaml, the digest,
-- float64, HTTP, the network interfaces, the rule managers and the metric log of sentinel-golang and the
-- configuration client. The keys that the interceptors read are those of the time of the call.
pub mod Common
pub mod Gateway
pub mod Service
pub mod Tools
pub mod Transport
pub mod Logger
pub mod Config
pub mod Aliyun
pub mod Meta
pub mod Heartbeat
pub mod Sentinel
pub mod Startup
