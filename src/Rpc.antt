-- ===== src/Rpc.antt =====
-- internal/rpc/client.go: what Call makes of the answer of a node. The HTTP transport and encoding/json are
-- outside the program: an answer is a status and a body, none where the transport failed.
use drivechain_esplora.Base.{
  ℕ, Bool, Option, none, some, [], ◌∷◌, ◌++◌, Bytes, ltb, ◌==◌, length, take, if◌then◌else◌,
}

-- An int.
pub record Code : Type 0 where
  pub negative : Bool
  pub size : ℕ

pub record NodeError : Type 0 where
  pub code : Code
  pub message : Bytes

-- response; `result` is the raw JSON.
pub record Response : Type 0 where
  pub result : Bytes
  pub error : Option NodeError

pub record Answer : Type 0 where
  pub status : ℕ
  pub body : Bytes

-- What Call answers: its four errors, or what it decoded into `out`, none for a nil `out`.
pub data Outcome (A : Type 0) : Type 0 where
  no_answer bad_response bad_result : Outcome A
  http_error : ℕ → Bytes → Outcome A
  node_error : NodeError → Outcome A
  done : Option A → Outcome A

-- maxErrorBody
abbrev pub max_error_body : ℕ
max_error_body = 512

-- truncate
unfoldable pub truncate : Bytes → Bytes
truncate body =
    if ltb max_error_body (length body)
    then take max_error_body body ++ (b'.' ∷ b'.' ∷ b'.' ∷ [])
    else body

module _ {A : Type 0} (decode : Bytes → Option Response) where
  abbrev decoded : Option A → Outcome A
  decoded none = bad_result
  decoded (some a) = done (some a)

  abbrev result_of : Option (Bytes → Option A) → Response → Outcome A
  result_of none r = done none
  result_of (some out) r = decoded (out r.result)

  abbrev read_response : Option (Bytes → Option A) → Response → Outcome A
  read_response out r = elim r.error [ none ↦ result_of out r | some e ↦ node_error e ]

  abbrev read_body : Option (Bytes → Option A) → Answer → Option Response → Outcome A
  read_body out a none =
      if a.status == 200 then bad_response else http_error a.status (truncate a.body)
  read_body out a (some r) = read_response out r

  -- Call, behind the transport.
  unfoldable pub call : Option (Bytes → Option A) → Option Answer → Outcome A
  unfolding truncate
  call out none = no_answer
  call out (some a) = read_body out a (decode a.body)
