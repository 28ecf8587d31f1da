-- ===== src/Tx/Print.antt =====
-- The operators << of src/tx/storage and src/tx/server, and to_string of a server transaction's state,
-- as the text that they make. How a stream writes an int64_t is a parameter.
use Prim.Native.String.{String, ◌++◌}
use simple_db.Base.{ℤ}
use simple_db.Tx.Storage.{TagValue}
use simple_db.Tx.ServerTx.{ServerTxState, DataPut}
use simple_db.Tx.ServerTx

unfoldable pub to_string : ServerTxState → String
to_string ServerTx.not_started = "NOT_STARTED"
to_string ServerTx.open_tx = "OPEN"
to_string ServerTx.committed = "COMMITTED"
to_string ServerTx.rolled_back_by_server = "ROLLED_BACK_BY_SERVER"

module _ (int : ℤ → String) where
  unfoldable pub print_tag : TagValue → String
  print_tag tag = "tag: txid=" ++ int tag.txid ++ ", value=" ++ int tag.value

  unfoldable pub print_data_put : DataPut → String
  print_data_put put = "DataPut: key=" ++ int put.key ++ ", value=" ++ int put.value
