-- ===== src/Ocpp/Transactions.antt =====
-- backend/services/ocpp-server/internal/service/transaction_store.go. Each method holds the mutex from
-- its start to its end, so it is one step.
use drive_power.Prelude.{ℤ, String, Option, Assoc, lookup, insert, delete, string_eq}

pub record TransactionContext : Type 0 where
  pub session_id : ℤ
  pub meter_start : ℤ

abbrev pub TransactionStore : Type 0
TransactionStore = Assoc String TransactionContext

unfoldable pub set : String → TransactionContext → TransactionStore → TransactionStore
set t ctx s = insert t ctx s

unfoldable pub get : String → TransactionStore → Option TransactionContext
get t s = lookup t s

unfoldable pub remove : String → TransactionStore → TransactionStore
remove t s = delete t s
