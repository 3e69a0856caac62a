-- ===== src/Lib.antt =====
-- The core logic of the Zeus back end, a set of Go services that share a RabbitMQ broker: supply
-- chain (scm), material planning (mrp), sales, and accounts (system). A sales order asks for
-- finished goods; the planning service explodes a production order into parts, stores what is
-- short and publishes it to a pool of deficits; the supply chain service reserves deficits while
-- it draws up purchase orders, follows their shipments, and receives the goods into the stock. The
-- system service issues the tokens with which users call the others.
--
-- How the code is modelled. A method of a service is an `Action`: a function of the world that
-- gives a value or an error, and the world it leaves behind, also where it fails
-- (Prelude/Effect.antt). What a service calls and does not implement, its repositories, clients,
-- publisher, `uuid.New` and `time.Now`, is a record of such actions over an abstract world
-- (`PoDeps`, `GrDeps`, `ShipmentDeps`, `InventoryDeps`, `VendorDeps`, `MrpDeps`, `PlanDeps`,
-- `OrderDeps`, `FulfillmentDeps`, `AuthDeps`, `UserDeps`, `AuditDeps`, `Redis`). Theorems on what
-- is stored take a second record, of named laws that say what a repository's calls do to the rows
-- that the theorem is about (`PoStore`, `GrStore`, `ShipmentStore`, `ReceiptStore`, `MrpStore`,
-- `QueueStore`, `AllocationStore`, `AtpStore`, `UserStore`); where a
-- theorem compares two ways of reading, the record is a table that every read agrees with. Each
-- Tests.antt fills both by a world in memory and applies the theorems at it. A Go `int` is an integer whose operations wrap at 64
-- bits (Prelude/Int64.antt). A float64 is a parameter with its operations (Prelude/Float.antt). A
-- uuid is a number, 0 for `uuid.Nil`, or its text in System/Auth and System/Users. A time is an
-- integer of nanoseconds. A status that is a text in Go is a data type with a constructor for any other text
-- where one can occur. A nil pointer is `none`. Log lines and call counters are left
-- out, and so are trace headers but for System/Audit/Trace.
--
-- Prelude: the shared types, tests, lists, integers and texts; Prelude/Hoare.antt has the rules for
--   invariants and postconditions of a chain of calls, Prelude/Calls.antt takes such a chain apart, call
--   by call, with the world between them.
-- Scm: the supply chain service, scm/internal.
--   PurchaseOrder: service/po_service.go (poServiceRepo, validTransition), models/purchase_order.go.
--     Transition and Lifecycle are on the status, Approval on ApprovePO and TransitionState.
--   DeficitLock: consumer/deficit_lock.go. The broker is a list of what each fetch gives and a list
--     of effects that the code asks for, with the deferred close of the connection among them. Balance
--     and Conservation count quantities, Outcome says what the caller is told, Backoff how a message
--     is put back.
--   GoodsReceipt: service/goods_receipt_service.go (goodsReceiptServiceRepo), service/ledger_service.go
--     (RecordEntry), models/goods_receipt.go. Frame has what touches neither locks nor stock; Stock
--     and Exclusive are on the two.
--   Shipment: service/shipment_service.go (shipmentServiceRepo, validShipmentTransition),
--     models/shipment.go. Delivered is on the status, Dispatch on DispatchShipment, Receipt on
--     MarkDelivered.
--   Inventory: service/inventory_service.go (inventoryServiceRepo), models/inventory.go, part.go,
--     part_catalog.go and product.go. Parts/Images and Stocks/Suppliers are on what is read once for
--     many rows, Catalog/Stocked on the stock of a new part.
--   Vendors: service/vendor_service.go (vendorServiceRepo), models/supplier.go. Optimal is on
--     GetOptimalSupplier.
-- Mrp: the planning service, mrp/internal.
--   Readiness: service/readiness_service.go (RunBOMExplosion, buildReadinessRow, syncShortagesInDB,
--     deriveReadinessStatus). Sync is on the stored shortages, Supply on what is at hand and
--     on its way, Explosion on the results.
--   Matrix: service/readiness_service.go (paginateReadinessRows, buildReadinessMetrics) and
--     service/demand_service.go (GetDemandMetrics and the quantity that is ready to build).
--   Planning: service/production_service.go (PlanProduction) and consumer/order_consumer.go (what is
--     done with the body of a message). Plan is on PlanProduction, Creation on the messages.
-- Sales: the sales service, sales/internal.
--   Model: models/sales_order.go, models/sales_order_item.go and models/client.go.
--   Clients: service/client_service.go.
--   Orders: service/order_service.go, with CancelOrder and the reads of statuses. Creation has
--     CreateOrder and GetOrder, Revision UpdateOrder, Listing the lists and GetMetrics. Cancel,
--     Creation/Items and Listing/Counts are on them.
--   Fulfillment: service/fulfillment_service.go. Queue is on the loop of ProcessQueue, Allocation on
--     allocateOrder.
--   Valkey: repository/valkey (Repository). Store says what Redis keeps, Totals adds up transactions,
--     Reservations is on ReserveInventory, ReleaseInventory, SetATP and GetATP.
-- System: the system service, system/internal.
--   Auth: service/auth_service.go (authService), models/session.go. Issue and Rotation are on Refresh,
--     Blacklist on Logout and VerifyAccessToken. `issue_tokens` is what Login and Refresh have in common.
--   Users: service/user_service.go (userService). Coherence is on the cache over any sequence of
--     calls, Login on Authenticate under the login of Auth.
--   Audit: service/audit_service.go, service/action_type_service.go and consumer/audit_consumer.go.
--     Types is on the known types of action, Ingestion on what becomes of a message; Trace is on the trace ids in its headers, which
--     scm/internal/infrastructure/messaging/rabbitmq.go and its likes in sales and mrp write.
--
-- Fuel. Only the loop of ProcessQueue, which runs until the queue is empty, is on fuel; it ends
-- with more fuel than there are entries. The decimal numeral of a number takes no more digits than
-- its size. Every other loop is structural over a list.
--
-- Not modelled. The SQL repositories, the other Valkey repositories and the HTTP layer are glue to
-- the database and the router. The services over gorm (poService, goodsReceiptService,
-- shipmentService, inventoryService, vendorService) repeat the logic of those that the servers
-- build. Calls of different requests are taken one after another: the interleaving of two requests
-- within a call is not modelled. The roles and mail of the system service and the rest of the
-- planning and sales services are not modelled.
pub mod Prelude
pub mod Scm
pub mod Mrp
pub mod Sales
pub mod System
