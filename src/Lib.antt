-- ===== src/Lib.antt =====
-- A REST shop back end (Express over MongoDB, Redis and Kafka): its inventory, its carts, its checkouts,
-- its logins and its rate limiter. Paths are from the repository's root.
--
-- The parts, and how they interact. The inventory service holds stock for checkouts by reservations,
-- and is called over HTTP, by checkout and by a sweep that expires reservations. A cart is read and
-- changed by its user's requests, each of which takes its product data from the catalog. A checkout is
-- made from a cart, with prices from the catalog; it reserves its items in the inventory, and ends
-- completed by an order, cancelled, failed or expired by a sweep, when its reservations go back. A login
-- issues a pair of tokens and opens a session; the middleware admits a request by its access token and
-- its session. The rate limiter stands in front of every route.
--
-- Which file models which part:
--   Prelude/*       Boolean tests, integers, lists and JavaScript strings that all modules share, and
--                   the lemmas on them.
--   Mongo, Memory   one collection of the database. The database is a parameter: its operations with
--                   their documented behaviour as laws; Memory is a value at which they hold.
--   Errors/*        the errors that the services raise, and actions: state passing that may raise.
--                   What was written before a raise stays written, as in the source, where no
--                   transaction is opened.
--   Inventory/Entity, Events      src/modules/inventory/domain
--   Inventory/Repository          src/modules/inventory/infrastructure/database and events
--   Inventory/View, Building, Service, Reserving
--                                 src/modules/inventory/application/InventoryService.ts: the handlers
--                                 adjust and ensure_inventory in Service, reserve, release, confirm and
--                                 expire_reservations in Reserving, their checks and documents in
--                                 Building.
--   Inventory/Laws, Ledger, Stock, Consistency, Settling, Stocking, History, Conservation, Once, Retry,
--   Returning
--                                 the proofs: what each update does, the balance between records and
--                                 reservations, sequences of calls, and repeated calls.
--   Cart/Entity, Repository       src/modules/cart/domain and infrastructure/database
--   Cart/View, Service            src/modules/cart/application/CartService.ts
--   Cart/Laws, Shape, Requests, Versions, Limit, Totals
--                                 the proofs.
--   Checkout/Entity, Ports, Repository
--                                 src/modules/checkout/domain and infrastructure/database. The other
--                                 modules are behind the record of ports, with the state that they share
--                                 as a type of its own; Ports also has the contract of a release.
--   Checkout/Checking, Service, Reserving
--                                 src/modules/checkout/application/CheckoutService.ts
--   Checkout/Adapters, Wired      the adapters of src/modules/checkout/infrastructure, and the ports
--                                 filled with them, over the services of the carts and the inventory.
--   Checkout/Laws, Follows, Effects, Keeping, Live, Lifecycle, Releasing, Stocked, Cancelling, Sweeping,
--   Overlap, Pricing, Creating, Recreating
--                                 the proofs: what a stored checkout becomes, what a checkout gives
--                                 back, and what is created.
--   Auth/Entity, Repository       src/modules/auth/domain and infrastructure/database
--   Auth/Service, Accounts        src/modules/auth/application/auth.service.ts, and the middleware that
--                                 authenticates a request: registering, logins and refreshes in Service,
--                                 logging out, passwords and addresses in Accounts.
--   Auth/Jwt                      the adapter to jsonwebtoken, and the service with it
--   Auth/Ending, Spending, Steps, Keeping, Calls, Rotating
--                                 the proofs; Calls has the sequences of calls.
--   RateLimiter/Policies, Limiter src/infrastructure/redis/rate-limiter.ts; Admission has the proofs.
--   Examples/*      the theorems at concrete inputs.
--
-- How the state corresponds. A collection is the list of its documents; a handler is a function from
-- the store to a result and the store behind it, with one step for each `await` on the database.
-- Names are those of the source in snake case (`addOrMergeItem` is `add_or_merge_item`). A handler is
-- cut at its branches into functions of its own where a theorem speaks of the rest of it. Quantities
-- and prices are integers, dates are milliseconds, strings are sequences of UTF-16 units.
--
-- Bounds and fuel: no function takes fuel; all loops are structural, over lists of documents or
-- policies. The expiry sweeps read at most 500 documents.
--
-- What is not modelled. Logging, metrics and messages of errors. A request reads the clock once, and
-- draws its identifiers from a sequence that is a parameter. Lookups and conditional updates of the
-- database do not fail; an insertion may fail, as a duplicate or otherwise. Requests run one after
-- another, but for Checkout/Overlap, where one runs between two steps of another: the race branches are
-- there, but are entered only where the database refuses a duplicate or a version has changed.
-- The TTL indexes, by which the database deletes expired carts, tokens and sessions at a time of its own,
-- are not modelled: a document stays until a request removes it, and no theorem speaks of what is left
-- behind such a deletion. Upper case is that of ASCII. The paginated reads, the catalog and the customers (parameters), one
-- time passwords, hashing and signing (parameters), users, wishlist and the HTTP layer.
pub mod Cart
pub mod Checkout
pub mod Auth
pub mod Errors
pub mod Examples
pub mod Inventory
pub mod Memory
pub mod Mongo
pub mod Prelude
pub mod RateLimiter
