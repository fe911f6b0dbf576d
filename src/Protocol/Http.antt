-- ===== src/Protocol/Http.antt =====
-- What the clients of HTTP services read of an answer.
use sprinter_signing.Base.{ℕ, Option}
use sprinter_signing.Base.Text.{Text}

-- The status, and the body if it can be read.
pub record HttpResponse : Type 0 where
  pub status : ℕ
  pub body : Option Text

abbrev pub status_ok : ℕ
status_ok = 200
