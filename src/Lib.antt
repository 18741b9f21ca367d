-- ===== src/Lib.antt =====
-- MiniSMS is an SMS gateway: clients submit messages over HTTP or SMPP, each message is priced and
-- routed, and it is offered to one carrier after the other until one takes it. The files follow the
-- Go packages below minisms/internal.
--
-- The parts, and how a message passes through them:
--  - Billing: billing/rate.go prices the destination (LookupRate) and counts segments (SegmentInfo);
--    billing/carrier_charge.go finds the carrier's own price.
--  - Routing: routing/matcher.go, routecache/cache.go and sending/route.go find the route, by one loop
--    over prefixes that the four files write out and that Matching holds once.
--  - Carrier: carrier/eligibility.go decides whether a carrier may take the message, carrier/numrules
--    rewrites the two numbers for it, and carrier/smpp.go gives their type and plan.
--  - Sending: sending/failover.go orders the carriers of the route, and sending/dispatch.go offers the
--    message to them in turn (Sending.Transport: what is handed over, and the reading of the reply;
--    Sending.Dispatch: the loops). Sending.Store holds the tables and the SQL functions of
--    deploy/minisms_db.sql, Sending.Store.Messages the statements of db/sms_queue.go and
--    db/sms_logs.go. Sending.Reserve and Sending.Submit are sending/submit.go (reserve, dispatch,
--    settle), Sending.Queue is sending/queue.go (enqueue, claim, dispatch, settle, reap), and
--    Sending.Recovery is sending/sync_recover.go.
--  - Carrier.Sender is carrier/senderid.go and carrier/client_sender.go: the sender that a request
--    resolves to, and the senders that a client may use.
--  - Smpp, the server for clients: Throttle is smpp/server/bind_limit.go, Sessions is sessions.go, Cidr
--    is cidr.go, Decode is decode.go, and server.go with status.go is Bind (handleBind, endSession),
--    Ingress (handleSubmit) and Conn (handleConn), which calls the two. Ingress resolves the sender and
--    hands the message to the send, which it takes as a function.
--  - Smpp.Deliver is smpp/server/deliver.go: the receipt that Dlr.Forward hands to the registry.
--  - Carrier.Template is carrier/template.go, the placeholders in the body and the query of a request.
--  - Carrier.UrlGuard is carrier/urlguard.go, which addresses a request of the program may go to.
--  - Smpp, towards the carriers: Egress.Group is smpp/egress/group.go, Egress.Reconnect is the loop of
--    smpp/egress/session.go. EventLog is smpp/egresslog/hub.go, the log of both sides.
--  - Dlr: dlr/status.go reads the status of a delivery receipt, and dlr/processor.go with db/dlr.go
--    decides whether it is stored and forwarded (Dlr.Receipt) and forwards it to the client over SMPP
--    or to a webhook (Dlr.Forward, which takes the client's end as a record of answers). Dlr.Http is
--    HandleDLR of api/dlr.go, and Dlr.Ageing is runtime/aging.go with db/sms_aging.go, which closes
--    messages that get no receipt and forwards that.
--  - Admin.Permissions is adminauth/permissions.go. Invoice.Period is invoice/period.go, and
--    Invoice.Payment is the row of db/invoices.go with the payment of db/invoice_payment.go.
--
-- Conventions. A text is a list of code points. A Go map is a function to Option. A decimal amount
-- is a natural number of units of the last decimal place of its column. What PostgreSQL, a carrier,
-- package regexp, package unicode and phonenumbers answer are parameters: records of functions, or
-- lists of rows in the order of the query. Loops are structural recursion over the list that they
-- range over, so no fuel is needed; the endless loops of the queue's workers and of its reaper are a
-- relation of steps, in any order. A transaction is a chain that ends in the new tables or in an
-- error, which leaves the tables as they were; a function from statements to Bool says which
-- statements get through to the database. The prices, routes and carriers that a send only reads do
-- not change during it, and the usage totals of a carrier have no upper bound. The load balancer's
-- counter wraps at 2^64, as uint64 does.
--
-- Prelude, Result and Text hold the shared helpers, Tests the runs at concrete inputs.
--
-- In Smpp a *session is a number, whose fields are given by a function, since they never change; a time
-- is a number of nanoseconds. Conn follows one connection, with nothing from other connections between
-- the two locks of a bind; Bind.Concurrent follows the binds of one client on any connections, with the
-- check of its number of binds and the adding of the session as steps of their own. An int has 64 bits.
--
-- Not modelled: the web interface, configuration, reports and log views, the wire format and the client
-- library of SMPP, wire logs, the HTTP handlers of a send, invoices as documents, and the templates of
-- forwards. They are input and output around the parts above.
mod Prelude
pub mod Result
pub mod Text
pub mod Matching
pub mod Billing
pub mod Carrier
pub mod Routing
pub mod Sending
pub mod Dlr
pub mod Smpp
pub mod Admin
pub mod Invoice
mod Tests
