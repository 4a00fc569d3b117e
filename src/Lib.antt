-- ===== src/Lib.antt =====
-- A2Z-Core is a multi-tenant backend in Python: Core modules (app/core) that every service composes,
-- an invoicing service (app/services/invoicing) and an omni-channel inbox
-- (app/services/omnichannel), behind FastAPI routers. Every row, file and message belongs to an org,
-- and a user acts in an org through a role.
--
-- Which file models which part:
--
--   Prelude          names, tests, lists, dicts, texts, and calls with state and exceptions
--   Core/RateLimit   app/core/rate_limit.py: check_and_increment on the deque of its key
--   Core/Cache       app/core/cache.py: the methods of TTLCache
--   Core/Realtime    app/core/realtime.py: publish_update, and entering and leaving subscribe; Lifetime is
--                    about one such step, Blocks about a block with the steps of other tasks inside
--   Core/Email       app/core/email.py: sending, bounces and complaints, the suppression list; Blocks and
--                    Suppressed follow an address that is on the list
--   Core/Secrets     app/core/secrets.py: get_secret and put_secret with their cache, cut at each await;
--                    Kept and Written are about a secret that was written
--   Core/Storage     app/core/storage.py: uploading, reading, deleting and listing files; Scope and
--                    Tenancy are about what an org reads
--   Core/Role, Core/Membership   app/core/membership.py: the table and its mutations
--   Invoicing/StateMachine   app/services/invoicing/state_machine.py; Amounts is about the rounding
--   Invoicing/Model, Errors  models.py and schemas.py; exceptions.py
--   Invoicing/Exec   what a service call is: the tables, the invoice counters and the effects go in,
--                    and a result or an exception comes out with what the call leaves of them
--   Invoicing/Service    access.py and service.py, one function for each operation, with Edit,
--                    Lifecycle and Payments below it; Cases says how each ends for the tables
--   Invoicing/Books  when the books balance, and the operations on balanced books
--   Invoicing/Requests   sequences of calls by any orgs and users; each call brings the answers of
--                    the outside: memberships, the clock, a fresh uuid, and which calls of Core fail
--   Omnichannel/Model, Access, Routing   models.py, access.py and routing.py of
--                    app/services/omnichannel
--   Omnichannel/Worker   worker.py: Inbound is the processing of the items of a webhook payload,
--                    Delivery that of its delivery statuses, Outbound the sending of one message;
--                    the fifth receipt is the last attempt, as in app/config.py
--   Omnichannel/Inbox    inbox.py: list_conversations and mark_read; Order is the order of the query
--                    and the predicate after a cursor, Keyset a page in general, Cursor the text of a
--                    cursor, Pages a client that reads on, Bounds what one page can hold
--   Omnichannel/Handlers handlers.py: send_reply, with the outbound queue of queues.py
--   Omnichannel/Media    media.py: the signed URLs of attachments, on Core/Cache
--   Omnichannel/Connections, Webhooks   connections.py and webhooks.py, with adapters/registry.py and
--                    the signatures of adapters/_meta.py; secrets are read as Secrets Manager has them
--   Tests            the theorems at concrete inputs
--
-- Services call Core: the invoicing service takes its role checks from the membership module and its
-- numbers from the settings, and writes an audit entry after each commit; the worker assigns a new
-- conversation through Routing and publishes to the broker. Handlers and Email count on the windows of
-- Core/RateLimit under the limits of app/config.py; Webhooks reads the table that Connections writes.
--
-- Conventions. A loaded row is a value until the commit; what is not committed when a call raises is
-- lost, as the session is closed. Ids, instants and dates are only compared or copied and stand as
-- numbers; the limiter and the cache take the instant of each call, in ticks. Amounts are whole
-- cents, which the request schemas keep at zero or more; a decimal quantity is digits over scale, and
-- its products keep 28 digits, as the default context of decimal does. A text is a list of code points. What the services of AWS, the PDF renderer and the channels'
-- adapters answer to a call is a parameter, and a failing answer is one of its values.
-- Every loop is over a list, but for the client of Omnichannel/Inbox/Pages, which has a number of calls
-- that it may make, where more calls than there are conversations that match are enough, and the
-- search for the power of ten that rounds a number to 28 digits, for which the number itself is enough.
--
-- Not modelled: the reading of one conversation with its attachments, the worker's batches and its
-- loop, the adapters' payloads, the event stream, settings beyond the invoice counter,
-- authentication, the routers, the listing of invoices and of a user's orgs, the verification
-- of e-mail domains and the building of MIME, waiting for a message of a subscription, response
-- bodies, log lines, metrics and the metadata of audit entries.
pub mod Prelude
pub mod Core
pub mod Invoicing
pub mod Omnichannel
pub mod Tests
