-- ===== src/Api/Reply.antt =====
-- What a handler of internal/api does with one request: it answers the value that it hands to writeJSON
-- or writeText, or it answers writeError with a status. The text of a failure and the JSON encoding are
-- not modelled.
use drivechain_esplora.Base.{
  ℕ, Bool, true, false, Option, none, some, Error, Result, ok, err, unavailable, not_found,
}
use drivechain_esplora.Store.Query.{Q}
pub mod Laws

pub data Reply (A : Type 0) : Type 0 where
  refuse : ℕ → Reply A
  reply : A → Reply A

abbrev pub bad_request : ℕ
bad_request = 400

abbrev pub missing : ℕ
missing = 404

abbrev pub internal_error : ℕ
internal_error = 500

abbrev pub bad_gateway : ℕ
bad_gateway = 502

abbrev pub service_unavailable : ℕ
service_unavailable = 503

-- A handler that has asked `n` queries.
abbrev pub H : Type 0 → Type 0
H A = ℕ → Reply A × ℕ

infixl 5 ◌>>=◌ ◌>>◌
abbrev pub ◌>>=◌ : {A B : Type 0} → H A → (A → H B) → H B
◌>>=◌ m f n = let (r, k) = m n in elim r [ reply a ↦ f a k | refuse s ↦ (refuse s, k) ]

abbrev pub ◌>>◌ : {A B : Type 0} → H A → H B → H B
m >> k = m >>= λ _. k

abbrev pub answer : {A : Type 0} → A → H A
answer a n = (reply a, n)

abbrev pub deny : {A : Type 0} → ℕ → H A
deny status n = (refuse status, n)

-- failed: the status of an error.
unfoldable pub failed : Error → ℕ
failed unavailable = service_unavailable
failed _ = internal_error

-- notFound: the status of an error.
unfoldable pub not_found_status : Error → ℕ
unfolding failed
not_found_status not_found = missing
not_found_status e = failed e

abbrev pub on_error : {A : Type 0} → (Error → ℕ) → Result A → Reply A
on_error status (ok a) = reply a
on_error status (err e) = refuse (status e)

-- A call of the store, with the status that its error answers.
abbrev pub run : {A : Type 0} → (Error → ℕ) → Q A → H A
run status m n = let (r, k) = m n in (on_error status r, k)

-- A call whose errors the handler tells apart itself.
abbrev pub attempt : {A : Type 0} → Q A → H (Result A)
attempt m n = let (r, k) = m n in (reply r, k)

abbrev pub parsed : {A : Type 0} → Option A → H A
parsed none = deny bad_request
parsed (some a) = answer a

abbrev pub require : {A : Type 0} → ℕ → Option A → H A
require status none = deny status
require status (some a) = answer a

abbrev pub checked : {A : Type 0} → Result A → H A
checked (ok a) = answer a
checked (err _) = deny bad_request
