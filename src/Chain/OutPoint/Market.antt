-- ===== src/Chain/OutPoint/Market.antt =====
-- The fields that a market funds outpoint packs into its source.
use drivechain_esplora.Base.{
  ℕ, ◌≡◌, refl, Bool, true, false, some, [], ◌∷◌, ◌++◌, Bytes, if◌then◌else◌, length, take, drop,
  replicate, get_elem?, length-append, take-append, drop-append, append_assoc, All, All-append,
  arith, subst,
}
use drivechain_esplora.Chain.Text.{IsByte, IsU32, put_u32}
use drivechain_esplora.Chain.Text.Laws.{get_u32-put_u32, length-put_u32, put_u32-bytes}
use drivechain_esplora.Chain.OutPoint.{IsOutPoint, market_funds_out_point, market_fields}

take_id : (m r : Bytes) → length m ≡ 6 → take 6 (m ++ r) ≡ m
take_id m r e = subst (λ n. take n (m ++ r) ≡ m) e (take-append m r)

drop_id : (m r : Bytes) → length m ≡ 6 → drop 6 (m ++ r) ≡ r
drop_id m r e = subst (λ n. drop n (m ++ r) ≡ r) e (drop-append m r)

get_behind : (xs : Bytes) (y : ℕ) (ys : Bytes) → get_elem? (xs ++ (y ∷ ys)) (length xs) ≡ some y
get_behind [] y ys = refl
get_behind (x ∷ xs) y ys = get_behind xs y ys

get_flag :
    (m u : Bytes) (y : ℕ) (ys : Bytes)
    → length m ≡ 6
    → length u ≡ 4
    → get_elem? (m ++ (u ++ (y ∷ ys))) 10 ≡ some y
get_flag m u y ys em eu = rw (← append_assoc m u (y ∷ ys)) (
    subst (λ n. get_elem? ((m ++ u) ++ (y ∷ ys)) n ≡ some y) (omega (arith, length-append m u))
      (get_behind (m ++ u) y ys))

-- MarketFunds reads back the market, of 6 bytes, the height, a u32, and the flag that
-- MarketFundsOutPoint packed.
pub market_fields-market_funds_out_point :
    (m : Bytes) (height : ℕ) (is_fee : Bool)
    → length m ≡ 6
    → IsU32 height
    → market_fields (market_funds_out_point m height is_fee) ≡ (m, height, is_fee)
unfolding market_fields market_funds_out_point
market_fields-market_funds_out_point m height true em eh =
    rw
      (
        take_id m _ em,
        drop_id m _ em,
        get_u32-put_u32 height _ eh,
        get_flag m (put_u32 height) 1 (replicate 21 0) em (length-put_u32 height),
      )
      refl
market_fields-market_funds_out_point m height false em eh =
    rw
      (
        take_id m _ em,
        drop_id m _ em,
        get_u32-put_u32 height _ eh,
        get_flag m (put_u32 height) 0 (replicate 21 0) em (length-put_u32 height),
      )
      refl

flag_tail : (is_fee : Bool) → Bytes
flag_tail is_fee = (if is_fee then 1 else 0) ∷ replicate 21 0

flag_tail-bytes : (is_fee : Bool) → All IsByte (flag_tail is_fee) × (length (flag_tail is_fee) ≡ 22)
unfolding flag_tail
flag_tail-bytes true = omega arith
flag_tail-bytes false = omega arith

-- The packed outpoint is well formed: its source is 32 bytes.
pub market_funds_out_point-IsOutPoint :
    (m : Bytes) (height : ℕ) (is_fee : Bool)
    → length m ≡ 6
    → All IsByte m
    → IsOutPoint (market_funds_out_point m height is_fee)
unfolding market_funds_out_point flag_tail
market_funds_out_point-IsOutPoint m height is_fee em bm =
    let tail : Bytes = flag_tail is_fee in
    let (bt, lt) = flag_tail-bytes is_fee in
    record {
      known = omega arith;
      hashed = (
        omega (
          arith,
          length-append m (put_u32 height ++ tail),
          length-append (put_u32 height) tail,
          length-put_u32 height,
        ),
        All-append IsByte m (put_u32 height ++ tail) bm
            (All-append IsByte (put_u32 height) tail (put_u32-bytes height) bt),
      );
      bounded = omega arith;
    }
