-- ===== src/Mainchain.antt =====
-- internal/mainchain/enforcer.go: what a reply of the enforcer means. The HTTP transport and encoding/json
-- are outside the program: a reply is the error of the transport, or a status with what json.Unmarshal makes
-- of the body.
use Prim.Native.String.{String}
use drivechain_esplora.Base.{
  ℕ, ◌*◌, ◌+◌, ◌-◌, ◌^◌, Bool, true, false, not, ◌||◌, Option, none, some, List, [], ◌∷◌, map,
  Bytes, ltb, leb, ◌==◌, if◌then◌else◌, sort_by, Result, ok, ◌>>=◌, ◌>>◌, fail_if, or_fail,
  bad_json, node_failed, out_of_range,
}

pub record Sidechain : Type 0 where
  pub slot : ℕ
  pub title : String
  pub description : String
  pub vote_count : ℕ
  pub proposal_height : ℕ
  pub activation_height : ℕ

-- One element of the answer to GetSidechains; `declaration` is its version 0, title and description.
pub record SidechainWire : Type 0 where
  pub sidechain_number : ℕ
  pub declaration : Option (String × String)
  pub vote_count : ℕ
  pub proposal_height : ℕ
  pub activation_height : ℕ

-- The value of a treasury: an int64, with its sign.
pub record Amount : Type 0 where
  pub negative : Bool
  pub sats : ℕ

pub record Ctip : Type 0 where
  pub txid : Bytes
  pub vout : ℕ
  pub value_sats : Amount

pub record CtipWire : Type 0 where
  pub txid : Bytes
  pub vout : ℕ
  pub value : Bytes

-- An HTTP answer: its status and the decoded body, none where the body is not the JSON expected.
pub record Answer (A : Type 0) : Type 0 where
  pub status : ℕ
  pub body : Option A

-- post, behind the transport.
unfoldable pub post : {A : Type 0} → Result (Answer A) → Result A
post reply = do
  answer ← reply
  fail_if (not (answer.status == 200)) node_failed
  or_fail answer.body bad_json

abbrev title_of : Option (String × String) → String
title_of none = ""
title_of (some (title, _)) = title

abbrev description_of : Option (String × String) → String
description_of none = ""
description_of (some (_, description)) = description

abbrev pub sidechain : SidechainWire → Sidechain
sidechain s = record {
  slot = s.sidechain_number;
  title = title_of s.declaration;
  description = description_of s.declaration;
  vote_count = s.vote_count;
  proposal_height = s.proposal_height;
  activation_height = s.activation_height;
}

abbrev pub lower_slot : Sidechain → Sidechain → Bool
lower_slot a b = ltb a.slot b.slot

-- Sidechains; sort.Slice may reorder equal slots, and here they keep the answer's order.
unfoldable pub sidechains : Result (Answer (List SidechainWire)) → Result (List Sidechain)
unfolding post
sidechains reply = do chains ← post reply; ok (sort_by lower_slot (map sidechain chains))

-- strconv.ParseInt(s, 10, 64)
unfoldable pub scan_int : Bytes → ℕ → Option ℕ
scan_int [] acc = some acc
scan_int (c ∷ cs) acc =
    let rest = scan_int cs (acc * 10 + (c - b'0')) in
    if ltb c b'0' || ltb b'9' c then none else rest

abbrev digits_of : Bytes → Option ℕ
digits_of [] = none
digits_of (c ∷ cs) = scan_int (c ∷ cs) 0

abbrev bounded : Bool → ℕ → Option ℕ → Option Amount
bounded negative bound none = none
bounded negative bound (some n) =
    if leb n bound then some (record { negative = negative; sats = n }) else none

unfoldable pub parse_int64 : Bytes → Option Amount
unfolding scan_int
parse_int64 [] = none
parse_int64 (c ∷ cs) =
    if c == b'+'
    then bounded false (2 ^ 63 - 1) (digits_of cs)
    else if c == b'-'
    then bounded true (2 ^ 63) (digits_of cs)
    else bounded false (2 ^ 63 - 1) (digits_of (c ∷ cs))

-- The value of a CTIP; an empty one is a zero that Connect leaves out.
unfoldable pub ctip_value : Bytes → Result Amount
unfolding parse_int64
ctip_value [] = ok (record { negative = false; sats = 0 })
ctip_value (c ∷ cs) = or_fail (parse_int64 (c ∷ cs)) out_of_range

abbrev ctip_of : Option CtipWire → Result (Option Ctip)
ctip_of none = ok none
ctip_of (some c) = do
  value_sats ← ctip_value c.value
  ok (some (record { txid = c.txid; vout = c.vout; value_sats = value_sats }))

-- Ctip
unfoldable pub ctip : Result (Answer (Option CtipWire)) → Result (Option Ctip)
unfolding post
ctip reply = post reply >>= ctip_of

abbrev first_height : List ℕ → Option ℕ
first_height [] = none
first_height (h ∷ hs) = some h

-- BlockHeight
unfoldable pub block_height : Result (Answer (List ℕ)) → Result (Option ℕ)
unfolding post
block_height reply = do heights ← post reply; ok (first_height heights)
