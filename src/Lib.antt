-- ===== src/Lib.antt =====
-- A model of ednsdiag, the command-line client for DNS over HTTPS, TLS, QUIC, HTTP/3 and
-- DNSCrypt, and the theorems that it satisfies.
--
-- The program. `cmd/ednsdiag/main.go` parses the command line and runs one command. `query` and
-- `probe` build a DNS query, choose a built-in resolver and its endpoint, hand the wire to the
-- exchange of the chosen protocol, parse the response, and print a result as JSON. `compare` runs
-- a query for each of several targets at once and counts the outcomes. An exit code tells how it
-- ended.
--
-- The files.
--   Base, Text, Errors: shared names, Go strings as bytes, errors as values.
--   Platform: what the program takes from packages outside the repository (Unicode tables, IDNA,
--     the parsers of addresses, URLs and durations, dnsmessage, dnsstamps), as one record of
--     functions that every definition takes as an argument.
--   Model: internal/edns/model.go.
--   Dns: internal/edns/dns.go. Tables has `recordTypes`, `typeName`, `rcodeName` and `trimRoot`,
--     Name has `canonicalName`, Reverse `reverseName`, Query `BuildQuery`, Answer
--     `normalizeAnswer` and `addSVCBFields`, Response `ParseResponse`, Age `applyHTTPAge`; Message
--     is the data of dnsmessage, and Base64 its encoding of parameters. Reverse/RoundTrip has the
--     readers of RFC 1035 and RFC 3596 for the names of addresses, Query/Asked the numbers of IANA,
--     Name/Accepts and Query/Accepts the conditions under which a name and a query are accepted.
--   Provider, Capability, Proxy, Redirect: internal/edns/providers.go, capabilities.go, proxy.go
--     and redirect.go.
--   Frame: `writeDNSFrame` and `readDNSFrame` of internal/edns/doq.go, `writeAll` of dot.go and
--     `readCONNECTResponse` of proxy.go. A reader is the bytes it will give and the error at
--     their end; a writer says how many bytes each call takes and whether it fails.
--   Query: internal/edns/query.go. `queryWithExchange` is `query_with_exchange`, split where the
--     source returns early: `with_query`, `with_provider`, `send`, `receive`, `finish`. The
--     exchange is an argument, as in the source.
--   Transport: the exchanges. Dial is `dialTCP` of internal/edns/proxy.go, Dot dot.go, Doq doq.go,
--     Https and Doh doh.go and doh3.go, DnsCrypt dnscrypt.go, and Network the choice among them.
--     Sockets, TLS, QUIC, HTTP and the dnscrypt client are records of functions that say how the
--     network answers; Dot and Doq give the list of the calls that reach it, in their order, the
--     closing of connections among them. Lifetime follows the connections of TCP, and Configured
--     and Versions the settings of TLS that each client is made with. Credentials and Secrecy
--     compare two queries that differ in the credentials of their proxy.
--   Compare: internal/edns/compare.go. The goroutines are a list of the indices in the order in
--     which they finish, each of which writes its slot of the attempts.
--   Json: JSON values; Encode gives the value of every struct of internal/edns/model.go as its tags
--     say.
--   Schema: the keywords of JSON Schema that schemas/result-v1.schema.json uses, as data with their
--     meaning (`conforms`). Result is that schema. Answers and Normalized have the forms of the
--     answers, Parts, Single and Comparison the results, Carried, Query and Compare what the
--     pipeline keeps of them, Command the documents of the commands. Path and Validate are
--     `resultSchemaPath` and `ValidateResultV1JSON` of internal/edns/result_schema.go.
--   Cli: cmd/ednsdiag/main.go. Flags has `consumeFlags`, Target `parseCompareTarget`, QueryArgs
--     and CompareArgs the two parsers, Run `run` with the exit codes and the two streams.
--   Skill: scripts/validate_skill.py, which tests the documents of the repository. Python has the
--     methods of `str` that it calls, Name what its pattern of names accepts, Checks what its
--     tests do.
--   Tests: runs at concrete inputs.
--
-- Bounds and fuel. `writeAll` runs on as much fuel as the payload has bytes, since each round
-- that goes on writes at least one. `decimal` has one unit of fuel more than the number.
-- The search for the schema runs on as much fuel as the working directory has characters, since
-- the parent of an absolute path is shorter or is the path itself.
-- All other loops are structural recursion. `uint16` is written out as `% 65536`; counts and
-- lengths are far below 2 ^ 63 and are natural numbers.
--
-- Not modelled. Time and contexts: a timeout is an argument of the runners, and a cancelled
-- context an error that an exchange returns. The wording of errors: each `fmt.Errorf` is a
-- constructor with the values it shows, and where its text is a JSON string an argument gives it.
-- The bytes of a JSON document: a document is its value, and what decodes bytes to it is a
-- parameter; a Go string that is no UTF-8 is kept as it is, where the encoder replaces bytes. The
-- usage texts. A write to stdout or stderr that fails midway: a document is written whole or not
-- at all.
-- The closing of the bodies of HTTP responses and of the transport of DoH3. `net/http` follows
-- redirects on its own.
pub mod Base
pub mod Text
pub mod Errors
pub mod Platform
pub mod Model
pub mod Base64
pub mod Dns
pub mod Provider
pub mod Capability
pub mod Redirect
pub mod Proxy
pub mod Frame
pub mod Query
pub mod Transport
pub mod Compare
pub mod Json
pub mod Schema
pub mod Cli
pub mod Skill
mod Tests
