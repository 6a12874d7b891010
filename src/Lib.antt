-- ===== src/Lib.antt =====
-- A model of rustlette, an ASGI toolkit: its connection objects, data structures, responses and its
-- router, and the theorems that make them correct.
--
-- The program. A server calls an application with a connection scope and two channels. The router of
-- rustlette/routing.py matches the path of the scope against its routes, whose patterns are compiled
-- from text, and hands the connection to one of them; a mount hands it to another app below a longer
-- root path. An endpoint answers with a response of rustlette/responses.py, whose headers are built by
-- the mutable headers of rustlette/datastructures.py, or talks over the state machine of
-- rustlette/websockets.py. Middleware wraps an app and changes what it is given or what it sends.
--
-- The files.
--   Prelude and below: texts and bytes as lists of code points over the native numbers, tests, lists,
--     decimal numbers, integers, and the result of code that may raise.
--   WebSocket: `WebSocket` of rustlette/websockets.py. The record has both states, the messages that
--     the server is going to deliver, those that its `send` was called with and those that have reached
--     it; a parameter says which sends fail. Methods has the methods above `receive` and `send`, Protocol the sessions that they allow,
--     Methods/Reading the readers.
--   Headers: `Headers` and `MutableHeaders` of rustlette/datastructures.py on the raw list of pairs;
--     Encoding has the encoding of names and values to Latin-1, Laws the theorems.
--   MultiDict: `ImmutableMultiDict` and `MultiDict` of the same file, a dict and a list of pairs; Dict
--     has Python's dict as a list of pairs in order of insertion.
--   Request: how `Request` of rustlette/requests.py reads its body; Body has the theorems, Cookies is the
--     Cookie header and Cookies/RoundTrip its round trip; Form is `_get_form` and `close`, Form/Read the
--     theorem on it; Cached is `_CachedRequest` of rustlette/middleware/base.py, Cached/Delivery what it
--     gives to the app below.
--   Form: rustlette/formparsers.py. Upload is `UploadFile` of rustlette/datastructures.py; MultiPart has
--     the state of `MultiPartParser`, MultiPart/Callbacks its callbacks and MultiPart/Parse `parse`, with
--     their theorems below them; UrlEncoded is `FormParser`, UrlEncoded/Fields its theorem.
--   Sessions: rustlette/middleware/sessions.py; RoundTrip follows a session from a response to a request.
--   Authentication: rustlette/authentication.py and rustlette/middleware/authentication.py; Guarded has
--     both together.
--   Endpoints: `WebSocketEndpoint` of rustlette/endpoints.py; Calls is about what it calls, Fuel about its
--     loop; Http is `HTTPEndpoint`.
--   Ranges: the Range header in `FileResponse` of rustlette/responses.py; Merge and Accepted have the
--     theorems.
--   Asgi: the messages of an HTTP response and what a client assembles from them.
--   Response: the headers and messages of `Response`; Streaming is `StreamingResponse`.
--     Response/Cookies: `set_cookie` and `delete_cookie` with what they use of Python's http.cookies;
--     Quoted and Coded are about a value in a header, RoundTrip follows a cookie to a later request.
--   FileResponse: the three ways in which a file is sent; Streams and Multipart have the theorems; Call is
--     the choice between them, Call/Delivered what a client is given.
--   Routing: Convertors is rustlette/convertors.py; Pattern is `compile_path` and the matching of the
--     regular expressions that it builds; Scope is the connection scope with `get_route_path` of
--     rustlette/_utils.py and `URL(scope=...)`; Router is the routes and `Router.app`, Router/Dispatch
--     and Router/Mounting have the theorems; UrlPath is the path of a named route, UrlPath/Named of one in a tree,
--     UrlPath/Led is about the match of a path that was made; Lifespan is `Router.lifespan`,
--     Lifespan/Answered what it sends.
--   Cors: rustlette/middleware/cors.py; Simple has ordinary answers, Preflight the preflight answers.
--   Exceptions: rustlette/_exception_handler.py and rustlette/middleware/exceptions.py; Sent is about
--     what is sent, Registered about which handlers there are; Server is rustlette/middleware/errors.py
--     around it.
--   Gzip: rustlette/middleware/gzip.py with the compressor as a parameter; Announced is about what is sent for a whole body.
--   TrustedHost: rustlette/middleware/trustedhost.py; Accepted is about the hosts it lets through, Location
--     about where it redirects.
--   Url: `URL` of rustlette/datastructures.py with `urlsplit` and `geturl` of Python's urllib; Replace is
--     `replace`, Query the operations on its parameters, Absolute the URLs of routes with `base_url` and
--     `url_for` of rustlette/requests.py; RoundTrip, Cutting, Authority and Address have the lemmas.
--   HttpsRedirect: rustlette/middleware/httpsredirect.py; Location is about its answer.
--   Wsgi: rustlette/middleware/wsgi.py; the environ of a request, with Merged about its headers, and
--     Responder, the run of a WSGI app as a tree of what it does, with Sent about its messages.
--   Application: the middleware stack of rustlette/applications.py; Stack is about its order.
--
-- Conventions. Strings are lists of code points and bytes lists of numbers; the text of an error is
-- not kept. A loop that reads a file has more fuel than there are bytes, a loop over a path its length
-- and an iterator over messages one more than the messages: each round consumes one at least, and the
-- theorems about them say what is delivered, not what would be. The loop of a request's body has three
-- more rounds than messages, and that of a WebSocket endpoint two more; Request/Body and Endpoints/Fuel
-- show that these are enough. A route's own app is a number, and the result of the router says which one
-- is called with which scope.
--
-- Not modelled: JSON, templates of tracebacks and the test client; threads, and task groups of anyio but that of
-- a streaming response, which is a cancellation between two sends.
pub mod Application
pub mod Asgi
pub mod Authentication
pub mod Cors
pub mod Endpoints
pub mod Exceptions
pub mod FileResponse
pub mod Form
pub mod Gzip
pub mod Headers
pub mod HttpsRedirect
pub mod MultiDict
mod Prelude
pub mod Ranges
pub mod Request
pub mod Response
pub mod Routing
pub mod Sessions
pub mod TrustedHost
pub mod Url
pub mod WebSocket
pub mod Wsgi
