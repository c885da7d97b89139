-- ===== src/Lib.antt =====
-- Open-Falcon: a monitoring system of several services. Agents collect metrics and push them to
-- `transfer`, which shards them to `graph`, where they are stored, and to `judge`, where the rules
-- that `hbs` hands out are applied; the events that `judge` raises go through Redis to `alarm`.
-- This library is about the way of a metric: through `transfer` to `graph`, with its cache of points
-- and the queries it answers, and to `judge`, from an item that arrives to the event that is pushed;
-- about the rules that `hbs` hands out, the letters that `alarm` makes of many alarms, `aggregator`,
-- which computes metrics over hosts, and `nodata`, which sends a mock for a counter that stays away.
--
-- How the parts of the judge interact: `Judge.Send` (modules/judge/rpc/receiver.go) drops the items
-- whose metric is in no rule, and hands each other item to the map for the first two digits of its
-- hash (modules/judge/store/history.go). The map finds the list of recent items of the counter, which
-- takes the item if it is newer (modules/judge/store/linkedlist.go). Then `Judge`
-- (modules/judge/store/judge.go) chooses the strategies and the expressions for the item, reads the
-- function of each and computes it on the list (modules/judge/store/func.go), and `sendEventIfNeed`
-- decides from the last event under the same id whether to raise another one.
--
-- How the others interact: `transfer` refuses what is not valid, converts the rest to the form of each
-- service and puts it in the queue of the node that a hash ring gives (Transfer). `graph` checks the
-- names and the time of an item, then caches the point in the sharded store, tells the index of it and
-- adds it to the last points of its counter (Graph/Api). A query finds type and step in the index, and
-- joins the points of the file with the cached ones (Graph/Handlers, Graph/Query); a flush takes the
-- cached points of a key out of the store and to the file (Graph/Flush).
--
-- Files, with the code that they model:
--   Prelude       lists, maps, groups, strings and ints of Go, with `strings` and `strconv` as far as
--                 used (Prelude/Int: 64-bit wrap-around; Prelude/Maps: maps in the order of a `range`)
--   Container     the maps and bounded lists of the package toolkits, as interfaces, with instances
--   Float         float64 as an interface, and an instance with six decimals for the tests
--   Model         common/model: the records; Model/EventInfo: the methods of Event (event.go);
--                 Model/Tags: common/utils/{tags,func,counter}.go
--   Judge/LinkedList  linkedlist.go; LinkedList/Series is about HistoryData, LinkedList/Retention
--                 about PushFrontAndMaintain
--   Judge/Func    func.go: the types of functions and checkIsTriggered; Func/Statistics:
--                 common/utils/statistics.go; Func/Compute: the methods Compute, with a child module
--                 for each kind of loop; Func/Parse: ParseFuncFromString
--   Judge/Events  sendEvent and sendEventIfNeed of judge.go, and LastEvents of g/var.go. The state is
--                 the last events and the log of what was pushed
--   Judge/Rules   g/var.go and cron/strategy.go: the maps of rules and how they are rebuilt
--   Judge/Check   the rest of judge.go: Judge, CheckStrategy, CheckExpression; Check/Selection is about
--                 strategies, Check/Once about expressions, Check/Total about panics
--   Judge/History history.go, rpc/receiver.go and cron/cleaner.go; History/Shards has the invariant of
--                 the maps, History/Clean what cleaning removes of one of them and
--                 History/Cleaned of all, History/Send the handler
--   Graph         common/model/graph.go; Graph/LinkedList and Graph/Store: modules/graph/store, with
--                 the refinement of the sharded store to one map and the restoring of points;
--                 Graph/CacheKey: modules/graph/g/utils.go
--   Graph/History modules/graph/store/history.go: the last points of each counter, and what it keeps
--   Graph/Index   modules/graph/index: the counters that are known, with their types and steps
--   Graph/Api     modules/graph/api/graph.go: Send, Last and LastRaw on the state of the service, which
--                 is the cache, the index and the last points; Api/Accept is about Send
--   Graph/Query   the part of Query that merges cached points with those of the file, with a child
--                 module for each step, and Steps, Shown and Gauge about gauges; Graph/Handlers: Query
--                 as a whole, Info, RemoveItem; Handlers/Replies is about what can be in a reply,
--                 Handlers/Gauges about what is in the one for a gauge
--   Graph/Flush   modules/graph/rrdtool/rrdtool.go: which points leave the cache, for which file;
--                 Flush/Committed is about one key, Flush/Forced about the keys of an index
--   Transfer      common/model: the records; Transfer/Receiver: RecvMetricValues
--                 (modules/transfer/receiver/rpc/rpc_transfer.go); Transfer/Sender: the conversions and
--                 the queues (modules/transfer/sender/sender.go)
--   Hbs           modules/hbs/rpc/hbs.go and ParentIds (modules/hbs/cache/strategies.go);
--                 Hbs/Ancestors is about templates, Hbs/Known and Hbs/Inherit about GetStrategies
--   Alarm         modules/alarm/cron/combiner.go; Alarm/Combined is about which letters there are,
--                 Alarm/Letters about what they say
--   Aggregator    modules/aggregator/cron/{run,computer}.go: WorkerRun; Aggregator/Expression has the
--                 expressions over counters, Aggregator/Total is about panics
--   Nodata        modules/nodata/judge: the decision for each counter and the status that it keeps;
--                 Nodata/Verdict is about one round, Nodata/Pace about many, Nodata/Timestamps about genTs;
--                 Nodata/Collector: modules/nodata/collector/collector.go
--   Tests         concrete items and rules, runs of the definitions, and the witnesses
--
-- Conventions: a function that can panic returns an Option, where `none` is the panic. A pointer to
-- an item or a rule, which nothing changes after it was stored, is the value, or an Option of it where
-- the source meets nil: the items of Send, and the strategies of hbs. Go visits a map in any
-- order, so a map is an association list, and what is proved holds for every order. `for` loops run
-- for as many rounds as their bounds give, so there is no fuel, except in `decimal`, where one more
-- than the number is enough for its digits, and in the loops of Query from one time to another: two
-- rounds more than the distance of the times in seconds are enough for any positive step and for times
-- from which a step more is an int64, as is proved for these loops. ParentIds has ten rounds in the
-- source. Ints wrap at 64 bits; sizes of lists in memory are below 2^63 by hypothesis where that
-- matters.
--
-- Parameters: float64 (of its order only what IEEE 754 says, where a theorem needs it), `utils.Md5`
-- (of its result only that it starts with two hexadecimal digits), the checksum crc32, the package
-- `nmap` and `list` with the laws of their containers, the hash rings as functions that may have no
-- node, what MySQL, the rrd library, JSON and the service for short links answer, the configuration,
-- and the time of a call.
--
-- Not modelled: locks and goroutines (each method is one step, also PushFront of
-- graph, which locks the map for Get and again for Set), logging, the connections to
-- Redis, MySQL and the heartbeat server, the tasks that empty the queues, the HTTP pages, and the other
-- services: agent, api and gateway are input and output throughout.
pub mod Prelude
pub mod Float
pub mod Container
pub mod Model
pub mod Judge
pub mod Graph
pub mod Nodata
pub mod Transfer
pub mod Hbs
pub mod Alarm
pub mod Aggregator
pub mod Tests
