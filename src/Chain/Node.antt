-- ===== src/Chain/Node.antt =====
-- internal/chain/node.go: the methods of a node that the index reads, each one Call of internal/rpc.
-- `post` is the transport to the node, and `NodeJson` what encoding/json reads a result as.
use Prim.Native.String.{String}
use drivechain_esplora.Base.{
  ℕ, zero, suc, Option, none, some, List, Bytes, Result, ok, err, ◌>>=◌, empty_chain, node_failed,
}
use drivechain_esplora.Chain.Hash.{Hash}
use drivechain_esplora.Chain.Block
use drivechain_esplora.Rpc.{Response, Answer, Outcome, done, call}

-- The `params` that a method is called with: nil, or a list of one value.
pub data Params : Type 0 where
  no_params : Params
  height_param : ℕ → Params
  hash_param : Hash → Params
  tx_param : Bytes → Params

-- json.Unmarshal into the type of each result; a pointer takes `null`.
pub record NodeJson : Type 0 where
  pub hash_pointer : Bytes → Option (Option Hash)
  pub number : Bytes → Option ℕ
  pub number_pointer : Bytes → Option (Option ℕ)
  pub block_pointer : Bytes → Option (Option Block.Block)
  pub block_index : Bytes → Option Block.BlockIndex
  pub hash : Bytes → Option Hash
  pub mempool_txs : Bytes → Option (List Block.MempoolTx)
  pub raw : Bytes → Option Bytes

-- The error of a call is handed on; here it is one error, as no caller tells them apart.
abbrev pub result_or_failed : {A : Type 0} → Outcome A → Result A
result_or_failed (done (some a)) = ok a
result_or_failed (done none) = err node_failed
result_or_failed Outcome.no_answer = err node_failed
result_or_failed Outcome.bad_response = err node_failed
result_or_failed Outcome.bad_result = err node_failed
result_or_failed (Outcome.http_error status body) = err node_failed
result_or_failed (Outcome.node_error e) = err node_failed

-- The tip is one below the count.
abbrev pub tip_of_count : ℕ → Result ℕ
tip_of_count zero = err empty_chain
tip_of_count (suc n) = ok n

module _ (json : NodeJson) (decode : Bytes → Option Response)
    (post : String → Params → Option Answer) where
  unfoldable pub asked : {A : Type 0} → (Bytes → Option A) → String → Params → Result A
  asked out method params = result_or_failed (call decode (some out) (post method params))

  -- Node.BestBlockHash
  unfoldable pub best_block_hash : Result (Option Hash)
  unfolding asked
  best_block_hash = asked json.hash_pointer "get_best_sidechain_block_hash" no_params

  -- The call of Node.TipHeight.
  unfoldable pub block_count : Result ℕ
  unfolding asked
  block_count = asked json.number "getblockcount" no_params

  -- Node.TipHeight
  unfoldable pub tip_height : Result ℕ
  unfolding block_count
  tip_height = block_count >>= tip_of_count

  -- Node.BlockHashAt
  unfoldable pub block_hash_at : ℕ → Result (Option Hash)
  unfolding asked
  block_hash_at height = asked json.hash_pointer "get_block_hash" (height_param height)

  -- Node.GetBlock
  unfoldable pub get_block : Hash → Result (Option Block.Block)
  unfolding asked
  get_block hash = asked json.block_pointer "get_block" (hash_param hash)

  -- Node.GetBlockIndex
  unfoldable pub get_block_index : Hash → Result Block.BlockIndex
  unfolding asked
  get_block_index hash = asked json.block_index "get_block_index" (hash_param hash)

  -- Node.SubmitTransaction
  unfoldable pub submit_transaction : Bytes → Result Hash
  unfolding asked
  submit_transaction tx = asked json.hash "submit_transaction" (tx_param tx)

  -- Node.ListMempool
  unfoldable pub list_mempool : Result (List Block.MempoolTx)
  unfolding asked
  list_mempool = asked json.mempool_txs "list_mempool" no_params

  -- Node.PendingWithdrawalBundle
  unfoldable pub pending_withdrawal_bundle : Result Bytes
  unfolding asked
  pending_withdrawal_bundle = asked json.raw "pending_withdrawal_bundle" no_params

  -- Node.LatestFailedWithdrawalBundleHeight
  unfoldable pub latest_failed_withdrawal_bundle_height : Result (Option ℕ)
  unfolding asked
  latest_failed_withdrawal_bundle_height =
      asked json.number_pointer "latest_failed_withdrawal_bundle_height" no_params
