-- ===== src/Payments/System.antt =====
-- The money requests as one system: requests are served one after another, as the transactions of
-- isolation level Serializable are, and any of their database calls may fail.
pub mod Sound
pub mod Orders
use Prim.Native.String.{String}
use cloudmeter.Common.{ℕ, Bool, Option}
use cloudmeter.Common.Int.{ℤ, IsInt64}
use cloudmeter.Common.Tx.{transact}
use cloudmeter.Payments.{Store, Reply, Handler}
use cloudmeter.Payments.Create.{CreateRequest, Url, create_payment_order}
use cloudmeter.Payments.Topups.{mark_payment_paid}
use cloudmeter.Payments.Refunds.{refund_payment}
use cloudmeter.Payments.Adjust.{adjust_wallet}
use cloudmeter.Payments.Operations.{Operation, payment_operation}
use cloudmeter.Payments.Callback.{Form, epay_callback}

-- A request, with the ids and the time that the database gives.
pub data Request : Type 0 where
  create : (user id : ℕ) → CreateRequest → Request
  mark_paid : (actor entry now id : ℕ) → Request
  refund : (actor rid entry now id : ℕ) → (reason : String) → Request
  adjust : (actor entry user : ℕ) → (amount : ℤ) → IsInt64 amount → (ref : String) → Request
  operate : (actor now id : ℕ) → Operation → Request
  callback : (entry now : ℕ) → Form → Request

-- What the repository does not contain: MD5, the decryption of stored secrets, the database's reading
-- of a UUID, and net/url.
pub record Outside : Type 0 where
  pub md5_hex : String → String
  pub decrypt : String → Option String
  pub uuid_of : String → Option ℕ
  pub parse_url : String → Option Url

module _ (e : Outside) where
  unfoldable pub serve : Request → Handler Reply
  serve (create user id q) = create_payment_order e.parse_url e.decrypt user id q
  serve (mark_paid actor entry now id) = mark_payment_paid actor entry now id
  serve (refund actor rid entry now id reason) = refund_payment actor rid entry now id reason
  serve (adjust actor entry user amount _ ref) = adjust_wallet actor entry user amount ref
  serve (operate actor now id op) = payment_operation e.decrypt actor now id op
  serve (callback entry now values) = epay_callback e.md5_hex e.decrypt e.uuid_of entry now values

  abbrev pub after : Request → (ℕ → Bool) → Store → Store
  after r faults d = (transact (serve r) faults d).1

  -- The stores that follow a first one.
  pub data Reach (d : Store) : Store → Type 0 where
    here : Reach d d
    next :
        {d' : Store}
        → Reach d d'
        → (r : Request) → (faults : ℕ → Bool) → Reach d (after r faults d')
