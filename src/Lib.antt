-- ===== src/Lib.antt =====
-- The antelope firewall: a reverse proxy in front of the HTTP API nodes of an Antelope chain. It
-- takes a request, reads and decodes its body, drops what its filter blocks and what its rate
-- limiters count over their limits, matches the nodes of the endpoint that are healthy, chooses one
-- of them (the one the client asks for by name, within a ceiling, or the routing mode's choice) and
-- forwards the request, then names the node in the headers of the answer.
--
-- The parts, by file (paths of the repository are below antelope-firewall-lib/src):
--
--   Prelude              texts as lists of code points, Boolean tests, maps as association lists,
--                        results, Rust's operations on str
--   Node                 NodeEntry (lib.rs), same_origin (firewall_builder.rs)
--   Config.Endpoints     PUSH_ENDPOINTS and GET_ENDPOINTS (config.rs)
--   Config.NodeSet       Node, is_valid_pinnable_name, build_node_set (config.rs)
--   Policy               the closures and matching rules of from_config (config.rs)
--   Filter               Filter (filter.rs), MatchingEngine (matching_engine.rs)
--   Cache                JsonDataCache (json_data_cache.rs)
--   RateLimiter          RateLimiter (ratelimiter.rs); State has the window state, Charges, History,
--                        Effect and Failures what a call and an answer count, Admission and Ceiling what
--                        a call lets through
--   PinLimiter           PinLimiter (firewall_builder.rs): Bounds, Ceiling, Key
--   Health               HealthChecker (healthcheck.rs); History is the sequence of its checks
--   Upstream             upstream_param, requested_upstream, expose_header_value,
--                        client_ip_from_headers and the search for a pinned node (firewall_builder.rs)
--   Routing              RoutingModeState and the choice by mode (firewall_builder.rs)
--   Firewall             AntelopeFirewall (firewall_builder.rs): Handler is handle_request with the
--                        builder, its steps are in Body, Loops, Route and Headers, the responses of
--                        util.rs in Replies; Target, Forwarding, Refusing and Naming are its theorems.
--                        Assembly is from_config (config.rs), with its theorem in Names.
--                        Decoding is the JSON value of a decoded transaction, Unpacking where the
--                        packed form is found, Blocking and Blocked
--                        follow it from the packed bytes to the answer; Serving is a sequence of
--                        requests, with what they keep of the configuration in Invariants and the
--                        block list of a configuration in Enforced. Concurrent is handle_request cut into
--                        stages: Alone are the stages with nothing between them, World any number of
--                        requests in their stages, moved in any order, with the checks of the nodes
--                        between (run of firewall_builder.rs and the task of healthcheck.rs), Keeping,
--                        Sound, Opened and Reached what holds in every world that is reached, Pins the
--                        calls of the pin limiter on the way
--   Metrics              the counters of the nodes in handle_request (firewall_builder.rs) and those of
--                        all nodes (prometheus.rs), step by step: Names, Registering, Visits and Series
--                        are requests one after the other, Race two that meet
--   Router               router.rs: the older configuration, its checks and the choice of nodes; Paths
--                        has the groups of paths, Accepted the theorems
--   De                   de.rs: the reader of bytes and its integers; Names is name_to_string, Visitor
--                        the methods of serde's Deserializer, Transaction the three records. Packing
--                        is the reference encoder, RoundTrip, Total, Truncation and Signed are the
--                        theorems
--   Tests                concrete instances of the parameters, and the theorems applied to them
--
-- How the code is read. A text is the list of its code points. A HashMap or a HashSet is a list in
-- its iteration order; no theorem asks for a particular order. Numbers are natural numbers: a u64
-- that can overflow keeps its wrap around written out (`% 2 ^ 64`), a panic is `none`. A method
-- behind a mutex is a function from the state to the state after it. handle_request is one function
-- of the state (Firewall.Handler) and again a sequence of stages (Firewall.Concurrent), cut where
-- other requests can run: a stage is what happens under one lock, and what a request holds between its
-- stages is the value of its task. The choice by mode is one stage too: it reads and counts at atomics
-- that other requests could change between, but no map of counters ever holds one. Handler and Concurrent
-- leave out the counters of the nodes, which Metrics has: where Metrics says that a request panics
-- before its exchange, it is not sent. Clock readings are arguments: nanoseconds for the limiters,
-- where one call may read the clock several times; the pin limiter's instants are numbers whose difference
-- stops at zero, as `duration_since` does. The background tasks of the health checker and of the cache
-- are sequences of their rounds; from_config builds no cache, so that no world refreshes one.
--
-- What belongs to other crates is a parameter with the laws the code relies on: UrlApi (url, whose
-- setters change only their own part), HeaderApi (hyper), IpApi (std), JsonApi (serde_json,
-- jsonpath), F32 (f32, with no law but, for the least connected node, that of an order on what is
-- not NaN), RegistryApi (prometheus), the draw of WeightedIndex (rand), hex decoding, date parsing,
-- and the exchange with a node (reqwest). ValueApi has how serde_json makes values and where the
-- two paths of the program lead. serde's own visitors (of an integer, a Vec and a derived struct)
-- are written out as serde documents them. A visitor is the record of the methods that it writes.
--
-- The decoder reads from a list of bytes, and comes to a value with the bytes that are left, to an
-- error, or to a panic. Its arithmetic is that of the release build: the shift of parse_varuint
-- takes its count modulo 32, and the count itself wraps around. No recursion needs fuel: every loop
-- of the code runs over a list, but for the outer loop of name_to_string, which goes on until no bit
-- is left and is recursion on the accessibility of the number of bits that are left. `run_count` of
-- Metrics takes a number of steps: a request needs at most eight, and its theorems say that it is then
-- at its end.
--
-- router.rs is in no `mod` line of lib.rs; it is modelled as it stands, with the map of healths that it
-- names as a parameter. Its sets are lists that `extend` keeps free of repetitions.
--
-- Not modelled: the parsing of the configuration file, the exporter of prometheus.rs with the counters
-- of requests received and of requests without a route, those of the filters and the limiters, logging,
-- the TCP server and the HTTP client, main.rs and command_line.rs (input and output only).
pub mod Cache
pub mod Config
pub mod De
pub mod Filter
pub mod Firewall
pub mod Health
pub mod Metrics
pub mod Node
pub mod PinLimiter
pub mod Policy
pub mod Prelude
pub mod RateLimiter
pub mod Router
pub mod Routing
pub mod Tests
pub mod Upstream
