-- ===== src/Lib.antt =====
-- A model of middy, the middleware engine for AWS Lambda handlers, and its properties.
--
-- The program. An instance (packages/core/index.js) keeps three stacks of middlewares: before,
-- after and onError. `use`, `before`, `after` and `onError` register them. A call of the instance
-- goes through its execution mode, which builds the request, runs the hook requestStart, hands the
-- request to runRequest and runs requestEnd. runRequest runs the before stack, the handler in a
-- race with an early timeout, and the after stack; an error starts the onError stack. Middlewares
-- that fetch keep what they have in one cache per process (packages/util/index.js) and leave it in
-- the request's internal values. A handler may itself be made by a package: the routers
-- (packages/http-router, ws-router, cloudformation-router) choose a handler by the event, and
-- packages/event-batch-handler handles the records of a batch, whose settled results the middleware
-- packages/event-batch-response turns into a partial batch response. Each package checks the options
-- it is given with validateOptions, and packages/http-cors answers a preflight from its options and
-- puts the headers of the exchange on every response, the one to an error included, which
-- packages/http-error-handler makes. packages/http-security-headers adds its own.
--
-- The files.
--   Prelude          Boolean tests, lists, maps, and the monad of actions: a call of user code
--                    ends with a value, ends with a thrown error, or never settles (`pending`), and
--                    leaves a new state either way
--   Core.Engine      the request, middlewares, handler and plugin; the loop of the three stacks
--   Core.RunRequest  runRequest with its timeout and catch block
--   Core.Builder     use, before, after, onError
--   Core.Modes       executionModeStandard.js, executionModeDurableContext.js
--   Core.Streamify   executionModeStreamifyResponse.js, from the response to the writes
--   Util.Cache       the cache's state, eviction, clearing and modification
--   Util.Cache.Process  processCache, its refreshes and setCacheKeyExpiry
--   Util.Internal    getInternal and sanitizeKey
--   Util.SetToContext  buildSetToContextSpec, assignSetToContext, canPrefetch
--   Util.Omit        buildPathTree and omit: the redaction of a value by paths
--   Util.Client      createClientInit: the memo of a client, whose attempts may be rejected
--   Contexts.Heap, Contexts.Requests  objects with prototypes; the contexts that middyRequest
--                    derives for an instance called inside another, with contextNamespace
--   Validation.Rules, Validation.Types, Validation.Steps, Validation.Check  validateOptions
--   Texts            texts as code units, for paths and keys
--   HttpRouter.Regexp, HttpRouter.Compile  the expressions of compileDynamicRoute, and their
--                    matches: a backtracking search
--   HttpRouter.Routes, HttpRouter.Event, HttpRouter.Dispatch  the constructor's tables, the versions
--                    of an event with decodeURIComponent, and the handler
--   KeyRouter.Ws, KeyRouter.Cloudformation  the routers by one key
--   Batch.Handler    FIFO batches, one record after the other
--   Batch.Pool       settleConcurrent: its workers as a relation of steps, in any interleaving
--   Batch.Source, Batch.Response, Batch.Hooks  event-batch-response
--   Headers.Fields   the headers of a response, normalizeHttpResponse, addVary
--   Headers.Cors     http-cors: Origins (the options and their compiled patterns), Options
--                    (getOrigin), Matching, Modify (modifyHeaders), Hooks (the three stages)
--   Headers.Security  http-security-headers: Defaults and Policies (the options, and the entries of
--                    helmet), Hooks (the headers that are computed once, and the two stages)
--   Headers.Negotiation  http-content-negotiation, over the parsers of the package negotiator
--   HttpErrors.Codes, HttpErrors.Handler  HttpError; http-error-handler
-- The folders beside them hold the proofs, and the modules named Tests the runs at concrete inputs.
--
-- The correspondence. User code (middlewares, handlers, hooks, fetches) is an argument, a function
-- on the request or on the state; `undefined` is `none`. A promise is what it settles with: the
-- handler's also has the time at which it does, since only there the code races it with a timer.
-- The clock stands still within one call of the cache, as the code reads it once. Times are whole
-- milliseconds. Loops are structural recursion, but for the chunks of a streamed text: their fuel
-- is the length of the text, and each round but the first takes a whole chunk off it. The workers
-- of a batch take at most two turns for each record, and a record whose run never settles keeps its
-- worker. A router ends in the call of a handler, which is an opaque value. Objects live in a heap
-- of cells, each with the address of its prototype, which is older than it, so a read follows at
-- most as many prototypes as the address has predecessors. Node's Buffer, JSON.stringify, the
-- Unicode letters of a group name, the case folding of texts that are not ASCII and the host that
-- the URL class finds are parameters.
--
-- Not modelled: the writing of log records, createClient (a call of the AWS SDK), and the other packages:
-- middlewares over AWS clients, cryptography, third-party parsers and sockets, http-header-normalizer,
-- and those on response bodies.
pub mod Prelude
pub mod Texts
pub mod Core
pub mod HttpRouter
pub mod Batch
pub mod KeyRouter
pub mod Util
pub mod Headers
pub mod Contexts
pub mod Validation
pub mod HttpErrors
