-- ===== src/Lib.antt =====
-- The enclave proxy terminates TLS inside an enclave, asks horse-power to authorize each request,
-- sends it to an upstream provider and settles its cost. This library models the parts of
-- enclave/src that decide rather than do I/O, each translated from its file, and proves what they
-- promise. The rest of the program (server.mjs and the protocol adapters) calls these parts.
--
-- Shared modules: Prelude (Boolean tests, lists over native numbers, text as UTF-16 units), JsMap
-- (the language's ordered map, with its laws), Values (JSON numbers as fractions), Json (the values of
-- `JSON.parse`), LineBuffer (complete lines from chunks, with a limit on an unfinished line).
--
-- Components and their files:
-- - SettleQueue models enclave/src/settleQueue.mjs. An item is an object shared by the queue and by
--   the continuation of a pending post, so the model has a heap of items and a queue of identities.
--   submit, drainTick and the two continuations are submit, drain_tick and resolve; an event carries
--   the clock and the outcome of a post. Reach is the histories of events.
-- - BalanceBackoff models enclave/src/balanceBackoff.mjs: remember and lookup of a store that tracks
--   10000 credentials, retryAfterSeconds and presentedCredentialKey. SHA-256 is a parameter.
-- - Counters models enclave/src/counters.mjs: call is the object's methods, a finalize closure is its
--   index, and bump is the bounded tally.
-- - Address and ProxyProtocol model enclave/src/proxyProtocol.mjs: parseProxyV1, parseProxyV2,
--   parseProxyHeader, the builders, ipv4Bytes and the printing of addresses. net.isIP and the byte that
--   Buffer.from makes of the number of a part are parameters; ipv6Bytes is not modelled.
-- - UpstreamBinding models enclave/src/upstreamBinding.mjs: both tables as they stand, checkBinding and
--   checkBindings over the ids of a request, checkProviderBinding over the fields of a candidate,
--   each a JSON value of which only text has content.
-- - DirectOnly models enclave/src/directOnly.mjs: the namespaces, the declared target and
--   classifyDirectOnlyRefusal with the messages as they are sent. The reasons are looked up as own
--   keys of the table. It uses the model id in the form that UpstreamBinding judges.
-- - Routing models of enclave/src/routing.mjs the directives of horse-power: SpendCap is
--   applySpendCap, Strips the plugin and tool directives, Provider those on the provider object.
--   Transform is what transformPayload decides on the model and the provider; its cache marks, its web
--   search swaps and the usage field are not modelled, and Routed describes the provider it gives.
-- - HpHosts models enclave/src/hpHosts.mjs: the list, the normal form of a name, the test and the pin.
-- - Decisions models the validator of enclave/src/decisions.mjs; the sizes of serialised JSON that it
--   compares are part of the body. Fitting and Valid describe a valid body by the kinds of its parts.
--   Measuring, usage and the request itself are not modelled.
-- - LineBuffer is the loop over lines of OutputCounter.feed in enclave/src/outputCount.mjs and of
--   ReasoningMirror._feedSse in enclave/src/reasoningMirror.mjs; what is done with a line, with one past
--   the limit and with the rest of it is a record. Units reads it unit by unit, Chunks and Agree say what
--   it does with chunks.
-- - OutputCounter models enclave/src/outputCount.mjs: deltaText is delta_text, _line and _add are
--   count_line and add, finish is count_last and then OutputCounter.finish. JSON.parse and the tokenizer
--   are parameters; a tokenizer that does not load, or rejects a slice, is none.
-- - ReasoningMirror models enclave/src/reasoningMirror.mjs: Parts is about mirrorReasoningInto, Lines
--   about the chunks and lines, Bodies about whole bodies, Streams about event streams.
-- - FirstToken models enclave/src/firstToken.mjs: detectFirstTokenKind and FirstTokenDetector.
-- - StreamReplacer models of enclave/src/rebrand.mjs StreamReplacer, Rebrander and
--   directResponseRewriter; ModelKeyRewriter, whose pattern is a regular expression, is not modelled.
-- - PiiSpans models of enclave/src/pii/core.mjs validSpan and mergeSpans; sort is a stable insertion
--   sort.
-- - PiiPlaceholders models of the same file pseudonymize, for texts that come with their spans: the
--   closure placeholderFor is placeholder_for over the maps it closes over, and its do loop is next_free.
--   The entity key of a surface and the delimiters are parameters. PiiTokens is the set `taken`: the
--   matches of BARE_TOKEN by a scanner of states, those of placeholderPattern by a matcher that gives
--   digits back where the closing delimiter needs them.
-- - UpstreamErrorBody models enclave/src/upstreamErrorBody.mjs: the stripping of identity, the walk over
--   a body's texts, and the buffered and streamed sanitizers, the stream as its two callbacks. The
--   rewriting of wording is a parameter.
--
-- Bounds and fuel: printing a number in a base takes as many rounds as the number plus one, since
-- each round divides it; the loop over the slices of a text takes as many rounds as its length plus one,
-- since each advances by 2,000 units; the search for a free placeholder takes one round more than there
-- are taken ones; the run of zero groups of an IPv6 address takes eight rounds, one a group.
-- JavaScript numbers that count or measure are natural numbers, without the rounding of doubles
-- beyond 2^53.
--
-- Not modelled: sockets, TLS, attestation, sealing and signatures, the tokenizer, JSON parsing and
-- printing, the decoding of bytes, log lines and timers as such, the dialect adapters, the eligibility
-- gate, smart routing, and the restoration of PII.
pub mod Address
pub mod BalanceBackoff
pub mod Counters
pub mod Decisions
pub mod DirectOnly
pub mod FirstToken
pub mod HpHosts
pub mod JsMap
pub mod Json
pub mod LineBuffer
pub mod OutputCounter
pub mod PiiPlaceholders
pub mod PiiSpans
pub mod PiiTokens
pub mod Prelude
pub mod ProxyProtocol
pub mod ReasoningMirror
pub mod Routing
pub mod SettleQueue
pub mod StreamReplacer
pub mod UpstreamBinding
pub mod UpstreamErrorBody
pub mod Values
