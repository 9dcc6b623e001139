-- ===== src/E2e/FakeNode/Caught.antt =====
-- A pass of internal/index/sync.go over internal/chain/node.go and internal/e2e/fakenode.go.
use drivechain_esplora.Base.{
  ℕ, ◌-◌, ◌<◌, ◌≡◌, ap, ◌∙◌, Bool, true, Option, some, Bytes, length, get_elem?, get_elem?-lt,
  get_elem?-le, Result, ok,
}
use drivechain_esplora.Chain.Hash.{Hash}
use drivechain_esplora.Chain.Content.{Content}
use drivechain_esplora.Chain.Node
use drivechain_esplora.Chain.Node.{Params, NodeJson}
use drivechain_esplora.Rpc.{Response}
use drivechain_esplora.Command.{connect_node}
use drivechain_esplora.Store.State.{tip}
use drivechain_esplora.Index.World.{Env, World}
use drivechain_esplora.Index.Sync.{once}
use drivechain_esplora.Index.Sync.Fork.{IsSteady}
use drivechain_esplora.Index.Sync.Caught.{Shares, once_caught_up}
use drivechain_esplora.E2e.FakeNode.{FakeNode, Value, Refusal}
use drivechain_esplora.E2e.FakeNode.Laws.{
  post, IsJson, best_block_hash-get_elem?, block_count-length, block_hash_at-get_elem?,
}

module _ (json : NodeJson) (written : Params → Bytes) (marshal : Value → Bytes)
    (refusal : Refusal → Bytes) (encode : Response → Bytes) (decode : Bytes → Option Response)
    (n : FakeNode) where
  -- The environment `env` with a connector and a node that reach `n`.
  abbrev pub against : (ℕ → Env) → ℕ → Env
  against env t =
      let send = post json written marshal refusal encode decode n in
      record (env t) {
        connect_node = connect_node (Node.tip_height json decode send);
        block_count = Node.block_count json decode send;
        block_hash = Node.block_hash_at json decode send;
        get_block = Node.get_block json decode send;
        get_block_index = Node.get_block_index json decode send;
        list_mempool = Node.list_mempool json decode send;
      }

  -- Against the fake node with any chain of at least one block, read through the client's Call and
  -- the methods of Node, with a database that answers every call, a pass of the block syncer that
  -- succeeds leaves the tip at the node's last height with the hash that BestBlockHash answers,
  -- from any start that is fresh or an index without gaps with the node's block 0, if encoding/json
  -- reads back what it has written.
  pub fake_node_caught_up :
      (env : ℕ → Env) (has_times has_heights : Bool) (content : Bytes → Result Content)
      (blake3 sha256 : Bytes → Bytes) (w w' : World)
      → IsJson json written marshal refusal encode decode n
      → ((t : ℕ) → (env t).database ≡ true)
      → 0 < length n.chain
      → Shares (get_elem? n.chain) w.db
      → once (against env) has_times has_heights content blake3 sha256 w ≡ (ok tt, w')
      → (x : Hash) × (Node.best_block_hash json decode
            (post json written marshal refusal encode decode n)
          ≡ ok (some x))
        × (tip w'.db ≡ some (length n.chain - 1, x))
  fake_node_caught_up env has_times has_heights content blake3 sha256 w w' laws up some_block shares
        e =
      let steady : IsSteady (against env) (get_elem? n.chain) = record {
        database = up;
        block_hash =
            λ t k. block_hash_at-get_elem? json written marshal refusal encode decode n laws k;
      } in
      let (x, held, at) =
        once_caught_up (against env) has_times has_heights (get_elem? n.chain) steady content blake3
          sha256 (length n.chain)
          (λ t. block_count-length json written marshal refusal encode decode n laws) some_block
          (get_elem?-lt n.chain) (get_elem?-le n.chain) w w' shares e in
      (
        x,
        best_block_hash-get_elem? json written marshal refusal encode decode n laws
            ∙ ap (λ (o : Option Hash). ok o) held,
        at,
      )
