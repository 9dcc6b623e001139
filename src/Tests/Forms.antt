-- ===== src/Tests/Forms.antt =====
-- The JSON forms of an input and of a coinbase, at a deposit with a leaf hash and at a memo.
use drivechain_esplora.Base.{◌≡◌, refl, true, [], ◌∷◌, ok, ◌>>=◌, arith}
use drivechain_esplora.Chain.Text.{encode_hex}
use drivechain_esplora.Chain.Block.{Input, Coinbase}
use drivechain_esplora.Chain.Block.Json.{read_input, write_input, read_coinbase, write_coinbase}
use drivechain_esplora.Chain.Block.Json.Laws.{forms_read_back}
use drivechain_esplora.Tests.Chain.{
  coin, coin-IsOutPoint, plain_text, write_text, read_quoted, read_array, quotes,
}

abbrev spent : Input
spent = record { out_point = coin; leaf_hash = 9 ∷ 200 ∷ [] }

abbrev minting : Coinbase
minting = record {
  memo = 5 ∷ [];
  outputs = record { address = 1 ∷ []; content = [] } ∷ [];
  keyed_by_txid = true;
}

forms_read_back_example :
    ((write_input write_text spent >>= read_input plain_text read_quoted read_array) ≡ ok spent)
    × (read_coinbase plain_text read_quoted read_array (write_coinbase write_text minting)
        ≡ ok minting)
forms_read_back_example =
    forms_read_back plain_text read_quoted read_array write_text (λ s h. refl)
      (λ bs h. quotes (encode_hex bs)) spent minting coin-IsOutPoint
      (λ e. absurd (omega (arith, e))) (omega arith, (omega arith, tt)) (omega arith, tt)
      (λ e. ground (arith, e))
