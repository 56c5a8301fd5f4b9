-- ===== src/Schema.antt =====
-- prisma/schema.prisma: the enumerations, the tables, and the state that the handlers work on.
-- Ids are numbers (a uuid is one), texts are lists of code units, times are milliseconds.
-- Money is `Decimal(12, 2)`: a number of hundredths of a so'm. `percent_rate` is
-- `Decimal(10, 4)`: a number of ten-thousandths of a percent. A Telegram id is a number too.
-- The column `tenant_id` is not kept: every handler writes `undefined` to it.
use ustabobo_bot.Base.{ℕ, Bool, Option, List}
use ustabobo_bot.Base.Int.{ℤ}
use ustabobo_bot.Base.Table.{Table}

abbrev pub Text : Type 0
Text = List ℕ

pub data Role : Type 0 where
  boss master driver : Role

pub data OrderStatus : Type 0 where
  draft waiting_confirmation waiting_master_work_start broadcasted accepted : OrderStatus
  received_by_driver waiting_master_delivery_confirmation delivered_by_driver : OrderStatus
  received_by_master working waiting_customer_confirmation completed cancelled : OrderStatus

pub data OrderItemType : Type 0 where
  product service manual_product : OrderItemType

-- the values that the program writes into `Transaction.type`
pub data TransactionType : Type 0 where
  master_fee driver_fee delivery_fee : TransactionType

pub record User : Type 0 where
  pub fullname : Text
  pub phone : Text
  pub login : Text
  pub password_hash : Text
  pub role : Role
  pub tg_id : Option ℕ
  pub percent_rate : ℕ
  pub balance : ℤ
  pub is_active : Bool
  pub is_authenticated : Bool
  pub last_authenticated_at : Option ℕ
  pub locked_until : Option ℕ
  pub pin_fail_count : ℕ

pub record Transaction : Type 0 where
  pub order_id : ℕ
  pub user_id : ℕ
  pub amount : ℕ
  pub type : TransactionType

pub record Organization : Type 0 where
  pub name : Text
  pub balance_due : ℕ
  pub is_active : Bool

pub record Vehicle : Type 0 where
  pub org_id : ℕ
  pub plate_number : Text
  pub model : Text
  pub is_active : Bool

pub record Service : Type 0 where
  pub name : Text
  pub price : ℕ
  pub is_active : Bool

pub record Product : Type 0 where
  pub name : Text
  pub cost_price : ℕ
  pub sale_price : ℕ
  pub stock_count : ℕ
  pub min_limit : ℕ
  pub is_active : Bool
  pub supplier_id : Option ℕ

pub record ProductPriceHistory : Type 0 where
  pub product_id : ℕ
  pub cost_price : ℕ
  pub sale_price : ℕ
  pub changed_by_id : Option ℕ
  pub note : Option Text

pub record Supplier : Type 0 where
  pub fullname : Text
  pub is_active : Bool

pub record SupplierPurchase : Type 0 where
  pub supplier_id : ℕ
  pub product_id : ℕ
  pub quantity : ℕ
  pub unit_cost : ℕ
  pub total : ℕ
  pub created_at : ℕ

pub record SupplierPayment : Type 0 where
  pub supplier_id : ℕ
  pub amount : ℕ
  pub created_at : ℕ
  pub note : Option Text

-- `lat` and `lng` are kept as the values that the client sent
pub record Order : Type 0 where
  pub master_id : ℕ
  pub driver_id : Option ℕ
  pub organization_id : Option ℕ
  pub vehicle_id : Option ℕ
  pub client_name : Text
  pub client_phone : Text
  pub car_number : Text
  pub car_model : Option Text
  pub car_photo_url : Option Text
  pub lat : Option ℤ
  pub lng : Option ℤ
  pub delivery_needed : Bool
  pub status : OrderStatus
  pub total_amount : ℕ
  pub confirm_token : Option ℕ
  pub created_at : ℕ
  pub completed_at : Option ℕ

pub record OrderItem : Type 0 where
  pub order_id : ℕ
  pub item_type : OrderItemType
  pub product_id : Option ℕ
  pub service_id : Option ℕ
  pub item_name : Option Text
  pub quantity : ℕ
  pub price_at_time : ℕ

-- the figures in the payload of a `customer_completed` event
pub record Settlement : Type 0 where
  pub usta_haqi : ℕ
  pub kuryer_haqi : ℕ
  pub boss_foyda : ℤ
  pub total_amount : ℕ
  pub services_sum : ℕ
  pub delivery_fee_sum : ℕ
  pub organization_balance_added : Option ℕ

-- `event_type` with its `payload`
pub data EventPayload : Type 0 where
  draft_created : EventPayload
  location_submitted : ℤ → ℤ → ℕ → EventPayload
  master_confirmed : OrderStatus → OrderStatus → Bool → EventPayload
  master_started_work driver_finished driver_delivered by_master_received : EventPayload
  order_cancelled : OrderStatus → EventPayload
  master_finished : ℕ → EventPayload
  master_confirmed_delivery master_rejected_delivery : EventPayload
  driver_accepted : ℕ → EventPayload
  customer_completed : Settlement → EventPayload

pub record OrderEvent : Type 0 where
  pub order_id : ℕ
  pub actor_user_id : Option ℕ
  pub payload : EventPayload

-- `AuditLog`: the action with its `meta`, and who did it on which entity
pub data AuditAction : Type 0 where
  supplier_payment_create : ℕ → ℕ → AuditAction
  order_status_update : OrderStatus → AuditAction
  order_update : Option ℕ → AuditAction

pub record AuditLog : Type 0 where
  pub user_id : Option ℕ
  pub action : AuditAction
  pub entity_id : ℕ

-- what the bot sends (src/bot/bot-notify.service.ts): the chat, and which message
pub data Notice : Type 0 where
  ask_location : ℕ → Notice
  ask_confirm : ℕ → ℕ → Notice
  work_start_request work_started can_start_work delivery_request : ℕ → ℕ → Notice
  finish_link : ℕ → ℕ → Notice
  delivery_rejected : ℕ → Notice
  stock_alert : ℕ → List ℕ → Notice

-- the database, the messages sent by the bot, and the jobs of `broadcast_queue`
pub record World : Type 0 where
  pub users : Table User
  pub transactions : Table Transaction
  pub organizations : Table Organization
  pub vehicles : Table Vehicle
  pub services : Table Service
  pub products : Table Product
  pub price_histories : Table ProductPriceHistory
  pub suppliers : Table Supplier
  pub purchases : Table SupplierPurchase
  pub payments : Table SupplierPayment
  pub orders : Table Order
  pub order_items : Table OrderItem
  pub order_events : List OrderEvent
  pub audit_logs : List AuditLog
  pub outbox : List Notice
  pub broadcast_queue : List ℕ

-- what a call takes from outside: the clock, and the ids that are generated during it
pub record Env : Type 0 where
  pub now : ℕ
  pub uuid : ℕ → ℕ
