-- ===== src/Tx/Client/Spec.antt =====
-- src/tx/client/tx_spec.h: what a client is to do in a transaction.
use simple_db.Base.{List}
use simple_db.Tx.Types.{Timestamp, Key, Value}

pub record ClientTxGet : Type 0 where
  pub earliest_ts : Timestamp
  pub key : Key

pub record ClientTxPut : Type 0 where
  pub earliest_ts : Timestamp
  pub key : Key
  pub value : Value

pub data Action : Type 0 where
  undefined commit rollback : Action

pub record TxSpec : Type 0 where
  pub earliest_start_ts : Timestamp
  pub earliest_commit_ts : Timestamp
  pub gets : List ClientTxGet
  pub puts : List ClientTxPut
  pub action : Action
