-- ===== src/Lib.antt =====
-- The backend daemon of plasma-network-health: plasma-network-healthd, which pings a list of
-- hosts, judges each host's health and publishes the result for the Plasma widget. Paths below are
-- from the repository's root.
--
-- The program is one event loop (Monitor, daemon/src/monitor.cpp) over ICMP sockets (IcmpSocket,
-- daemon/src/pinger.cpp), with name lookups on a worker thread (Resolver,
-- daemon/src/resolver.cpp). Widgets leave configuration files; the monitor turns their
-- destinations into probers, and destinations that share an address, interval and timeout share a
-- prober. At each tick a prober gives up the probes that have waited long enough, asks for a
-- lookup if one is due, and sends a probe if one is due; replies are matched to outstanding
-- probes. Each probe ends in one sample, applySample hands it to the subscribed destinations, and
-- a destination's state changes only by the sensitivity rule. The state is published at once after
-- a health change and otherwise at intervals.
--
-- The files:
-- - Prelude: shared names; Prelude/Tests, Prelude/Lists, Prelude/Words and Prelude/Int hold
--   Boolean tests, lists over the native numbers, wrap-around and signed numbers. A std::string is
--   a list of bytes.
-- - Util: std::to_string (Util/Decimal), base64Encode (Util/Base64), trimmed and hasSuffix
--   (Util/Text), readWholeFile and writeFileAtomically (Util/Files).
-- - Json: daemon/src/json.hpp. Json/Value has the values and their accessors, Json/Double what the
--   code uses of doubles, Json/Text and Json/Write are writeString and write, Json/Reader and
--   Json/Parse are the Parser. Json/Strings, Json/Escaping, Json/Quoting, Json/Printed,
--   Json/Rounds, Json/ItemRounds, Json/MemberRounds, Json/Containers and Json/RoundTrip read a
--   written document back, Json/Progress and Json/Outcome are about the parser on any text,
--   Json/Nesting about deep nesting, Json/Ascii about the writer's bytes, Json/Plain tests whether
--   a document of ASCII strings, with numbers that std::stod reads whole, can be written and read
--   back.
-- - Health: HealthState, Destination, classify, reportedState and the part of applySample about
--   one destination (sample_destination; its verdict is judge). Health/Sensitivity has the
--   sensitivity rule over histories of verdicts, Health/Verdict whole samples with the counters,
--   Health/Overall the counts and the overall state of buildStateJson (count_destinations,
--   overall).
-- - Pinger: Pinger/Endpoint (Endpoint::matches), Pinger/Packet (internetChecksum and the wire
--   format), Pinger/Socket (IcmpSocket::open, send and receive), Pinger/Lookup (lookup,
--   parseNumericAddress), with the proofs in Pinger/Checksum and Pinger/Echo.
-- - Resolver: Resolver::request, collect and the two critical sections of run, each a function;
--   Resolver/Interleaving lets the loop and the worker thread take them in any order. worker_step
--   is what the worker thread does next, beside the event loop too (worker_steps): it takes a
--   request, or finishes the one that it holds with any result of a lookup.
-- - Monitor: Monitor/State has the records; Monitor/Sampling is applySample, Monitor/Probing is
--   sendProbe and tick, Monitor/Replies is handleReplies, Monitor/Resolutions is
--   handleResolutions, Monitor/Schedule is publish, nextDeadline and the timeout of epoll_wait,
--   Monitor/Rebuild is proberKey and rebuildProbers. Their children hold the proofs.
-- - Config: Config/Load is clampValue and loadClientFile, with its bounds in Config/Bounds;
--   Config/Reload is reloadClients, with the ranges of what is read in Config/Files and what it
--   carries over in Config/Carry, by the first entry of a list that has the keys (Config/First);
--   Config/Watch is handleInotify and dropExpiredClients, with the latter's proof in
--   Config/Expiry.
-- - Loop: run, with one round after another over what the system answers and what the resolver's
--   worker thread does meanwhile: before the events, before a reload and before tick, which are
--   the places where the loop uses the resolver; Loop/Start has the constructor, openSockets and
--   start. Loop/Table, Loop/Frames and Loop/Handlers are about what the handlers keep, Loop/Sound
--   and Loop/Reloading about a table of probers in order, Loop/Rounds and Loop/Life about all
--   rounds, Loop/Stopping about the end.
-- - Published: buildStateJson and the texts that publish writes, with what the widget decodes from
--   state.ini in Published/Payload.
-- - Options: the options of main (daemon/src/main.cpp), parseLogLevel and xdgRuntimeDir;
--   Options/Reading has the settings that they give.
-- - Tests: concrete inputs, tests by evaluation, and the theorems at inputs that meet their
--   hypotheses.
--
-- How the code is modelled. Objects are records and a method returns the new record. uint64_t and
-- uint32_t are natural numbers with the wrap written out (add64, sub64, inc32); a theorem that
-- needs times or counters not to wrap has that as a hypothesis. The ints sensitivity,
-- candidateStreak and resolveFailures are natural numbers, since they are never negative. An index
-- of -1 and a null pointer are none. The source's reference to a prober in tick and handleReplies
-- is a prober handled apart from the monitor and written back, since nothing on the way reads the
-- list. The maps m_proberByUid, previousByKey and currentByKey are lists of their entries. The
-- mutex of the resolver is modelled by its critical sections.
--
-- Loops are recursions on lists; the carry loop of the checksum has three rounds of fuel, which is
-- enough for any uint32_t, and to_string has twenty, one for each digit of a uint64_t. The loops
-- around sendto and recvmmsg recur on the kernel's answers, a finite sequence that ends with an
-- answer other than EINTR. A loop of the JSON parser has one round of fuel for each byte that is
-- left and one more, and its nesting stops at the code's depth of 64, so that it never runs out.
--
-- What the daemon asks of the system is an argument: the readings of the wall clock, strerror and
-- the answers of sendto (Env in Monitor/State), the answers of recvmmsg, socket, getaddrinfo and
-- getnameinfo, of readdir with the texts of the files, of stat and of read on the inotify
-- descriptor. Doubles are a parameter (Doubles in Json/Double), with what the round trip needs of
-- the C++ library's printing and reading of them as named hypotheses (Documented): %.10g prints
-- the characters of a number, and std::stod reads an integer that is exact in a double. That
-- std::stod reads whole what %.10g printed of another number is asked of each number of a document
-- (reads_whole), since it throws for the largest and the smallest. The machine is little-endian.
-- Time on the monotonic clock is an argument of each handler.
--
-- Not modelled: makeDirectories, and the forking, locking and redirection of the process set-up;
-- logging and socket options; the widget itself (QML and JavaScript) and the packaging.
pub mod Prelude
pub mod Util
pub mod Json
pub mod Health
pub mod Pinger
pub mod Resolver
pub mod Monitor
pub mod Config
pub mod Loop
pub mod Published
pub mod Options
pub mod Tests
