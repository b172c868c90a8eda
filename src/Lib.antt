-- ===== src/Lib.antt =====
-- A verification library for the JavaScript part of qjs-lws, bindings of libwebsockets for QuickJS.
-- The native module serves connections and calls back into JavaScript. On top of it stand the
-- application framework (lib/lws/app.js) with its sessions (lib/lws/session.js), the headers that
-- requests and responses share (lib/lws/headers.js), the byte queue that turns pushed chunks into
-- reads (lib/lws/byte-queue.js), the URL parser (lib/lws/url.js), a linked list (lib/lws/list.js) and
-- the event target (lib/lws/events.js), and programs with protocols of their own: a DNS resolver
-- (examples/dns-server) and a proxy that speaks SOCKS (examples/proxy).
--
-- Base holds lists, options, bits and `Outcome`, the result of code that may throw; Text holds
-- strings as lists of character codes, splitting and printed numbers. `Number` and `parseInt` are
-- the interface Text.Numbers.JsNumbers. Dict is a map with insertion order.
--
-- Dns models examples/dns-server/bytes.js and dns-message.js. Dns.Name has encodeName and decodeName:
-- the loop of decodeName runs on fuel, one round for each byte read between two of at most 128
-- pointers, so that 129 * (length + 1) + 1 rounds are enough. Dns.Address
-- has the four address functions, Dns.Rdata decodeRdata and encodeRdata, Dns.Message the records,
-- decodeMessage, encodeMessage and buildQuery. An object's field `class` may be missing, and the
-- fields `type` and `class` are called rtype, rclass, qtype and qclass.
--
-- Headers models the class of lib/lws/headers.js: append, set, get, delete, has, getSetCookie, forEach
-- and the constructor for arrays and objects. The sorted iterators are not modelled.
--
-- Session models MemoryStore, and Session.Middleware one request through sessionMiddleware: `start`
-- is the code up to next(), `act` one call of a handler on req.session, `finish` the finally block.
-- The time and the ids that genId returns are arguments. A store that fails is not modelled.
--
-- Dns.Cache models examples/dns-server/cache.js, FormData lib/lws/formdata.js. ByteUtils models concat and
-- accumulateUntil of examples/proxy/lib/byte-utils.js, by the law IsIncremental that a decoder has to
-- satisfy; Socks.Incremental fills it for the SOCKS decoders.
--
-- ByteQueue models lib/lws/byte-queue.js; a promise is a number, and each call returns the promises
-- that it resolves. Socks models examples/proxy/lib/socks-protocol.js. App.Path models compilePath of
-- lib/lws/app.js with the regular expressions that it builds, by a matcher with backtracking, and
-- App.Dispatch the loop of dispatch: fuel is one round for each layer and one more, which is enough. A
-- handler is the list of the calls of next that it waits for, with how it ends: by returning, throwing
-- or never settling. Handlers that do not wait for a call, or catch its exception, are outside.
--
-- Url models lib/lws/url.js, with strings as lists of code points. Url.Percent, Url.Form and Url.Host
-- are the functions before the parser, Url.Record the record and the predicates on it; `opaquePath` is
-- the constructor of the path. Url.Machine has the variables of basicURLParse, Url.Steps one function
-- for each case of its switch, by the character at the pointer, and Url.Parser the loop. A round
-- returns the machine with the pointer that the next round starts from. The states are left in one
-- direction only, so that 16 * (length + 2) rounds are enough. UTF-8, the native addresses and
-- toLowerCase are the parameter Url.Native.Native, with the laws Utf8; where toString and the
-- constructor LWSSockAddr46 throw, they give `none`. Url.Result has the exceptions, which get out of
-- the parser as Machine.threw, with the record as it stands. Url.SearchParams and Url.Object are the
-- classes; the link between a URL and its list is the record Url.Object.Url, and a setter returns the
-- object together with its exception, if there is one (Url.Object.Change).
--
-- LinkedList models lib/lws/list.js: LinkedList.Nodes the functions on nodes, which are numbers with
-- the fields `prev` and `next`, LinkedList.Class the class, whose head is node 0 and whose loops run on
-- as much fuel as nodes were made, and LinkedList.Spec the calls and the plain list that they are
-- compared with. LinkedList.Segment and LinkedList.Ring say how the nodes are linked. Not modelled are
-- sort, clone, list_replace, list_merge_tail and the iterations backwards.
--
-- Events models the class EventTarget of lib/lws/events.js. Listeners and wrappers are numbers, what a
-- listener does to the target, and whether it throws, is an argument, and a signal that aborts calls
-- removeEventListener. The properties on… are a field of the target. A type that is a name of
-- Object.prototype is outside the model.
--
-- Not modelled: the native bindings, the copied streams library, the socket classes, the server glue,
-- and the other programs, which are input and output around them.
pub mod Base
pub mod Text
pub mod Dns
pub mod Dict
pub mod Headers
pub mod FormData
pub mod Events
pub mod LinkedList
pub mod Url
pub mod ByteQueue
pub mod ByteUtils
pub mod Socks
pub mod Session
pub mod App
pub mod Tests
