-- ===== src/Lib.antt =====
-- A verification library for ustabobo_bot: the service that takes car-repair orders from a Telegram
-- bot and a web application, follows each order through its stages, pays the master
-- and the driver, keeps the store and the suppliers' accounts, and logs users in.
--
-- The program's parts, and the files that model them:
--   Schema               prisma/schema.prisma: the tables as records, and `World`, the database with
--                        the messages that the bot sends and the queue of broadcasts.
--   Prisma               the calls of the generated database client that the services make.
--   OrderStatusMachine   src/orders/order-status-machine.ts: ALLOWED_TRANSITIONS and canTransition.
--   PriceCalculator      src/orders/price-calculator.ts: DELIVERY_FEE and calculateOrderTotal.
--   Orders               src/orders/orders.service.ts, `OrdersService`:
--     Orders.Draft         createDraft (create_draft)
--     Orders.Location      setLocation, addLocationToDraft, addManualProductToOrder
--     Orders.Work          confirm, masterStartWork, cancelOrder, finish, receive
--     Orders.Delivery      driverAccept, driverFinish, driverDelivered, masterConfirmDelivery
--     Orders.Figures       the figures of customerConfirm before its transaction
--     Orders.Completion    customerConfirm, confirmByToken, getConfirmData, and checkAndAlert of
--                          src/products/stock-alert.service.ts
--     Orders.Requests      a call of any of these handlers as data, and runs of calls
--     Orders.Queries       getMyOrders, getMyOrdersByUserId, getOrderForWebApp, and the handler of
--                          `GET my/:telegramId` of src/orders/orders.controller.ts
--     Orders.Lifecycle, Orders.Ledger, Orders.Totals: what the calls do to the orders, to balances
--                          and transaction rows, and to totals
--   AdminOrders          src/admin/admin.service.ts: updateOrderStatus, updateOrder, createOrder (in
--                        AdminOrders.Creation), recalculateOrderFees (in AdminOrders.Recalculation).
--   Suppliers            src/admin/admin.service.ts: stockIn, createProduct, recordSupplierPayment,
--                        the debt of getSupplierById, getSupplierDebtSummary (Suppliers.Aging),
--                        updateProduct (Suppliers.Prices), and in Suppliers.Catalogue
--                        toggleProductActive, deleteProduct with the foreign keys of
--                        prisma/schema.prisma, createSupplier and updateSupplier.
--   Products             src/products/products.service.ts: create, findOne, update, remove.
--   AuthScene            src/bot/auth.scene.ts: the log-in wizard with its lock.
--   Bot                  the dialogue after the log-in:
--     Bot.Callbacks        src/bot/keyboards.ts: the callback data of the buttons and their patterns
--     Bot.Session          src/bot/bot-auth.middleware.ts, and requireAuth, onLogout, onStart of
--                          src/bot/bot.update.ts
--     Bot.Actions          the handlers of the buttons in src/bot/bot.update.ts
--     Bot.Location         onLocation of src/bot/bot.update.ts
--     Bot.Lists            the lists and reports that it shows: the boss's, a master's, a driver's
--     Bot.Commands         the commands of the boss and onCheck of src/bot/bot.update.ts
--     Bot.Texts            onText and onTextForManualService of src/bot/bot.update.ts
--   Broadcast            src/broadcast/broadcast.processor.ts: process.
--   Auth                 src/auth/auth.service.ts: login, refresh, webappLogin; and in Auth.InitData
--                        src/telegram/telegram-initdata.service.ts: validate; in
--                        Auth.Guards the guards of src/common/guards and src/auth/guards, JwtStrategy,
--                        and the order in which a route runs them.
--   Users                createUser, updateUser, toggleUserActive of src/admin/admin.service.ts, and
--                        create of src/users/users.service.ts.
--   Reports              src/admin/admin.service.ts: getReports and the summary of getMasterReport
--                        (Reports.Overall), getIndividualClients (Reports.Clients); Reports.Groups is
--                        the loop over a `Map` that they share.
--     Reports.Dashboard    src/admin/admin-dashboard.service.ts, and in Reports.Dashboard.Summary
--                          getDashboard of src/admin/admin.service.ts
--     Reports.Sheets       getOrganizationReport and getOrdersReport
--     Reports.History      getClientOrders, getClientsHistory, getVehicleHistory, and the daily report
--                          of src/bot/cron/daily-report.cron.ts
--   Organizations        src/admin/admin.service.ts: the operations on organizations, vehicles and
--                        services; getOrgVehicles and createOrgVehicle of src/auth/webapp.service.ts.
--                        Organizations.Registry: src/organizations, src/vehicles and src/services.
--   Erp                  the session of the administration's front end: erp/middleware.ts, erp/app/api:
--                        the routes of auth (login, refresh, logout, status) and the proxy of backend.
--     Erp.Panel            the back end of this proxy: the guards of the administration's controllers,
--                          login and refresh, and the operations of Organizations
--   WebApp               the web application:
--     WebApp.Validation    webapp/utils/validation.ts: telephone numbers and plates
--     WebApp.NewOrder      webapp/app/new-order/page.tsx: the form and what it sends; its events in
--                          WebApp.NewOrder.Cart, loadInit in WebApp.NewOrder.Loading; the sent order
--                          at createDraft in WebApp.NewOrder.Submission
--     WebApp.MyOrders      webapp/app/my-orders/page.tsx: the buttons of one's own orders, with the
--                          handlers of OrdersService that they call
--   PhoneValidation      src/common/pipes/phone-validation.pipe.ts.
--   Text                 the string methods that these use.
--   Base                 numbers, lists, tables, and handlers that may throw (Base.Exec).
--   Examples             runs of the handlers, and the theorems at concrete inputs.
--
-- The database client is third-party code. What the source relies on is its documented behaviour on
-- tables with primary, unique and foreign keys, and Prisma and Base.Table state that as operations
-- on tables: a search by key or by columns, an update that throws on a missing row, a creation that
-- throws on a unique key already in use, a transaction that restores what it found when it throws.
--
-- A handler is a function from the state to a result and a state. What was written before an
-- exception stays written, except inside `$transaction`, which restores the state; calls run one
-- after another, and two handlers that interleave are modelled by the split of customerConfirm in
-- what it reads (read_settlement) and its transaction (settle_order). Notifications and queued jobs
-- are appended to lists of the state; a message that cannot be sent is dropped by the source.
--
-- Money is in hundredths of a so'm, as the database keeps it (`Decimal(12, 2)`), and a percentage
-- in ten-thousandths (`Decimal(10, 4)`); the source computes both in floating point. A fee is the
-- exact quotient rounded to whole so'm, half up; the source rounds a quotient of floating point, so
-- that its fee can be one so'm off where the exact quotient is at, or very near, a half. Ids,
-- tokens and Telegram ids are numbers. Every loop is a recursion on a list, but for two on fuel:
-- the attempts of loadInit, of which four are enough because it stops after three repetitions, and
-- the pages of a history, for which one more than there are orders is enough. Random ids are a
-- function of the environment of a call; theorems on runs assume that the ids of new orders are
-- new.
--
-- A button's callback data is a text; the order id in it is read by a parameter that may fail, as
-- the database does on a text that is no uuid. Dates of a report are already read, and days are
-- those of UTC; the case of letters is changed for the Latin alphabet only, as in plates. The
-- platform's functions around the init data (the keyed hash, URLSearchParams, JSON.parse, the
-- orders of `sort`), the JWT library and the hash of a password are parameters.
--
-- The back end behind the front end's HTTP calls is a parameter with a state of its own, which
-- Erp.Panel fills with the services of src. A request's body is a stream: whether the platform's
-- `fetch` sends one that has been read, or throws, is a parameter too.
--
-- Not modelled: the wording and keyboards of what the bot writes; the top services of getReports and
-- the files of the spreadsheets; contact data of organizations; the queue itself; the rate limit; the
-- pages of the administration's front end, and of the web application all but its pages of a new order
-- and of one's own orders. `bcrypt.compare` and `parseFloat` are parameters.
pub mod Base
pub mod Reports
pub mod Schema
pub mod Users
pub mod WebApp
pub mod OrderStatusMachine
pub mod Prisma
pub mod Text
pub mod PriceCalculator
pub mod Products
pub mod Orders
pub mod Organizations
pub mod Suppliers
pub mod AdminOrders
pub mod AuthScene
pub mod Auth
pub mod Bot
pub mod Broadcast
pub mod PhoneValidation
pub mod Erp
pub mod Examples
