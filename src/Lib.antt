-- ===== src/Lib.antt =====
-- z42, an authoritative DNS server: a model of what its resolver computes.
--
-- A request comes to HandleRequest (internal/handler/handler.go), which finds the zone of its name in
-- the data handler (internal/storage/data_handler.go), looks the name up in the zone's radix tree of
-- locations (internal/types/zone.go), reads record sets (internal/types/dns_types.go), orders and
-- filters addresses by the client's place (internal/geotools/geotools.go) and signs what it found
-- (internal/dnssec/dnssec.go).
--
-- The files, and the code they are about:
-- - Prelude: Boolean tests, list functions and integers over native numbers; names as code points.
-- - Types: the records and record sets of internal/types/dns_types.go. Types/Rr has the resource
--   records, Types/Sets the structures, Types/Split split255, Types/Values the methods Value, Empty
--   and Ttl, as functions on the sum RrSet of all sets.
-- - Radix: the interface of the go-immutable-radix library, with its documented laws.
-- - Zone: internal/types/zone.go. reverse_name is ReverseName, new_zone NewZone, find_location
--   FindLocation; the tests on the result of LongestPrefix are find_below, find_below_empty and
--   find_root_wildcard. The slices `ips` and `mask` of the filters are one list of pairs, Masked.
-- - Geo: internal/geotools/geotools.go, and Ordering: orderIps of internal/handler/handler.go.
-- - Handler: the rest of internal/handler/handler.go. Handler/World is the interface to storage,
--   upstream, GeoIP and clock, every read of which may change the store; Handler/Round is the loop of
--   HandleRequest, Handler/Answer its switch on the query type, Handler/Aname findANAME,
--   Handler/Caa findCAA, Handler/Nsec addNSec, Handler/Addresses filter, generateA and generateAAAA.
-- - Storage: internal/storage/data_handler.go. load_zones is LoadZones, find_zone FindZone, split_db_key
--   splitDbKey, fix_ttl fixTTL, and each function that makes a key has its name here. Storage/Records
--   is getRRSet and Storage/Readers the reader of each type; Storage/Entries has what writes, with
--   set_location for SetLocationFromJson; Storage/Loading is GetZone, loadKey and loadZoneKeys. They
--   send the commands of Hiredis. The caches are the interface Ristretto.
-- - Dnssec: internal/dnssec/dnssec.go, SplitSets of internal/types/dns_types.go, and applyDnssec of
--   internal/handler/handler.go. The library's RRSIG.Sign and the order in which Go ranges over a map
--   are the fields of Signer.
-- - Ratelimit: pkg/ratelimit/limiter.go. can_handle is CanHandle, update what it does to a limiter it
--   found; Ratelimit/Expiring is the interface of the go-cache library.
-- - Healthcheck: internal/healthcheck/healthcheck.go. status_up and status_down are statusUp and
--   statusDown, handle_health_check the job of HandleHealthCheck behind the probe.
-- - Hiredis: pkg/hiredis/hiredis.go. Each command has its method's name (set_key is Set); the redigo
--   library is the interface Redigo. Hiredis/Scan has the loops over a cursor, which run on fuel: a
--   number of rounds that is at least the number of pages is enough. Hiredis/Stream is XAdd and XRead.
-- - Api: the management API. Api/Rows has the tables of scripts/schema.sql and their keys;
--   Api/Database, with a child for zones, locations and record sets, is internal/api/database, where a
--   statement may fail before it changes anything; Api/Handlers is internal/api/handlers over the
--   interfaces Storage and Accounts, which Api/Backend fills with the database. The clock of a database
--   counts statements, and picks their failures and the new ids.
-- - Upstream: internal/upstream/upstream.go. query is Query, ask the loop over the connections; the DNS
--   client is the interface Client and the cache library the interface TtlCache.
-- - Workerpool: pkg/workerpool/workerpool.go as a relation Step on the places of the jobs and workers,
--   one constructor for each send or receive on a channel.
-- - Healthcheck/Stats: internal/storage/stat_handler.go. Healthcheck/Transfer: Transfer of
--   internal/healthcheck/healthcheck.go, for the record sets of a location.
-- - Hiredis/Subscription: SubscribeEvent of pkg/hiredis/hiredis.go, as a relation Step on the loop and its
--   goroutines; event_key is what becomes of a channel. Storage/Events: the callback that drops a changed
--   key from the caches, and Healthcheck/Events that of the health check's items. Storage/Updater: the
--   loop of NewDataHandler over its tickers, with LoadZones in two steps, a relation on what redis holds,
--   the events on their way and the zones.
-- - Api/Integrity: the unique and foreign keys of scripts/schema.sql, as a predicate on the tables.
-- - Resolver: internal/handler/request.go, the end of HandleRequest, and handleRequest of
--   cmd/resolver/resolver.go. Healthcheck/Probe: the probes and jobs of
--   internal/healthcheck/healthcheck.go and the tick of its Start, over the interface Net.
-- - Api/Added: the record set that is added and read.
-- - Api/Isolated: the content of a zone, its row, its locations and their record sets, which the calls on
--   other zones leave alone; Ensures has the rules for operations that read before
--   their one statement. Api/Database/Reads and Found say what the reads find.
-- - Storage/Listing: LoadZones with its read, GetZones, GetZoneConfig, GetZoneLocations, SetZoneConfig and
--   Clear of internal/storage/data_handler.go.
-- - Tests: concrete inputs, with a radix tree and a store.
--
-- A failed read is `none`; `break loop` and `continue` are the constructors done and again of Next. An
-- index out of range, which panics in the source, is `none` in Geo.
--
-- Fuel: the loops over CNAME and ANAME records run 11 rounds, the number that the source's loopCount
-- allows before it fails the request; findCAA runs one round more than the location has dots;
-- swap_loop runs as many rounds as there are runes, split_loop one more than there are bytes, each
-- at least the number of rounds of the source.
--
-- Not modelled: logging, sockets, the programs under cmd and tools, the routes and the JWT settings of
-- the API, and the GeoIP database, whose answers are arguments.
pub mod Prelude
pub mod Types
pub mod Radix
pub mod Zone
pub mod Geo
pub mod Ordering
pub mod Handler
pub mod Storage
pub mod Dnssec
pub mod Ratelimit
pub mod Healthcheck
pub mod Hiredis
pub mod Api
pub mod Upstream
pub mod Workerpool
pub mod Resolver
mod Tests
