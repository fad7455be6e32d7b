-- ===== src/Lib.antt =====
-- httper, a library of an HTTP client and an HTTP server in Go: what its parts do, and that they do
-- it. The two halves share Go's errors, and meet in the query of a URL and in EndToEnd.
--
-- Shared
--   Base         the library names passed on, Boolean tests, lists, the integers, texts;
--                strings.Split, strings.Cut and strconv.ParseInt (Base.Text.Split, Base.Text.Decimal)
--   GoError      error values, errors.Is, errors.As and errors.Join, with the error types of
--                client/model.go, client/download/model.go and web/errs/errors.go
--
-- The server side. A request runs through the global middleware of an App (serve_http), net/http's
-- mux picks a registered handler, and that handler runs in the route's middleware (handle).
--   Web.World    the request, the response writer, the log, and handlers as state actions that may
--                return an error or panic
--   Web.Context  web/mux/context.go: the values behind a context's pointer, shared by its holders
--   Web.Errs     web/errs/errors.go
--   Web.Respond  web/response.go: RespondJSON, RespondError, Redirect
--   Web.Request  web/request.go: the readers of path and query values, and Decode
--   Web.Validate web/validate.go: Validate and its field errors
--   Web.Mux      web/mux/mux.go; Web.Mux.Options web/mux/options.go, the order of middleware by name;
--                Web.Mux.Registering is a route from Mount and Use to Handle; Web.Mux.Slices is the
--                stacks of Group, Mount and Use as slices on a heap; Web.Mux.Outside,
--                Web.Mux.Serving and Web.Mux.Entering follow a request from the
--                global middleware to the state in which its handler begins
--   Web.Middleware.{Cors, Csrf, Errors, Logger, Panics}  web/middleware, a file each
--                Web.Middleware.Usual, Web.Middleware.Stack: an App with Logger, Errors and Panics;
--                Web.Middleware.Outside: CORS and CSRF in front of the mux of an App
--   Web.Server   web/server: the options and New, Shutdown, and Run from what ends its select
--   Web.Glob, Web.Status  path.Match and http.StatusText, which the middleware calls
--
-- The client side.
--   Client.Build     Build of client/client.go and its options: http.Clients stand in a store, since
--                    Build changes the one it is given
--   Client.Exec      exec and Do of client/client.go, client/model.go
--   Client.Send      the header of a request on its way out: userAgent of client/options.go
--   Client.Url, Client.Request  URL and Request of client/client.go with their options
--   Client.Fetch     Download of client/client.go: Download.Handle under exec
--   Client.Throttle  client/throttle: RoundTrip over a token bucket
--   Download.Handle  client/download/download.go with the writers of checksumverify.go and
--                    progress.go (Download.Writers) and the reader of model.go; the files are a list
--                    of paths and contents (Download.Files)
--   Download.Steps   calls of download.Handle that share the files, by steps in any order: each against
--                    Handle alone (Alone, Isolation), and all against one after the other (Serial,
--                    Abstract, where the files are a quotient of the lists that hold them)
--   Download.Queue   client/download/queue.go: goroutines as tasks that step in
--                    any order, with the semaphore, the recorded errors and the cancellations
--                    (Results: what Result.Err returns against Result.Wait)
--   Download.Async   client/download/options.go, DownloadAsync of client/client.go up to the start of
--                    its task (whose function is run_async of Client.Fetch), and Result.Add of queue_result.go, over a store of queues
--
--   EndToEnd         Do of the client on what an App of the server answers
--
-- What is not under the repository is a parameter: http.ServeMux and the tracing library (Router),
-- json.Marshal (Encoded), the JSON encoder and decoder, the validator (Verdict), net/url's
-- escaping (escape, unescape), strconv.Quote (quote), http.CanonicalHeaderKey (canonical),
-- http.NewRequestWithContext (new_request), runtime.Caller (Caller), the operating system (Os),
-- the hash (digest), the rate limiter (allow, wait), the printing of floating point quotients
-- (percent, rate). What net/http brings of a response is the hypothesis Delivers of EndToEnd. Times
-- are numbers where the code compares them, nanoseconds in a download, and left out of the server's
-- log lines.
--
-- Bounds. A Go int is a ℤ with no bound: the code only compares, prints and stores such numbers.
-- What the readers of a request parse is held to 64 bits, and the loop of ParseUint wraps at 2^64.
-- Glob reads a pattern on fuel for its length, and each token and each range takes a character.
-- show_ℕ runs on fuel for the number itself, and each digit divides it.
--
-- Not modelled: what the validator finds and its translations, signals and deadlines of the server,
-- and a panic inside a goroutine of the queue. A hash.Hash is the bytes written to it and belongs to
-- one download: that a caller gives one hash to two downloads is left out. Errors overwrites the
-- message of an internal *errs.Error in place, and here it sends a copy: that a handler returns the
-- same pointer again is left out. Client.Send follows a header through the round trippers of the
-- package, without the cookies of a Jar and the Authorization line that http.Client adds for the
-- user information of a URL.
pub mod Base
pub mod GoError
pub mod Web
pub mod Download
pub mod Client
pub mod EndToEnd
