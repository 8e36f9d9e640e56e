-- ===== src/Cooperative/Receipts.antt =====
-- proxy/cip/receipts.py: a worker's receipt, its signature and the forwarded receipt's fields. HMAC and
-- the hash are functions of the standard library, and arguments here: `hmac` of a secret and a message,
-- and `show` for the canonical text of the fields. Signatures are ASCII, which `compare_digest` asks for.
use iicp_client_python.Prelude.{ℕ, Bool, false, String, Option, none, some, str_eq, if◌then◌else◌}

-- `credits_charged` and `issued_at` are numbers in a unit fine enough for all of them.
pub record CipReceipt : Type 0 where
  pub task_id : String
  pub worker_id : String
  pub tokens_used : ℕ
  pub credits_charged : ℕ
  pub issued_at : ℕ
  pub nonce : String
  pub signature : Option String

pub record CipWorkerReceipt : Type 0 where
  pub task_id : String
  pub worker_node_id : String
  pub tokens_used : ℕ
  pub nonce : String
  pub signature : String
  pub issued_at : String
  pub expires_at : Option String
  pub cip_session_key : Option String
  pub cip_parent_task_id : Option String
  pub response_hash : Option String

module _ (show : String → String → ℕ → ℕ → ℕ → String → String)
    (hmac : String → String → String) where
  -- `_receipt_canonical`
  unfoldable pub receipt_canonical : CipReceipt → String
  receipt_canonical receipt =
      show receipt.task_id receipt.worker_id receipt.tokens_used receipt.credits_charged
        receipt.issued_at receipt.nonce

  unfoldable pub sign_receipt : CipReceipt → String → String
  sign_receipt receipt secret = hmac secret (receipt_canonical receipt)

  unfoldable pub verify_receipt_signature : CipReceipt → String → Bool
  verify_receipt_signature receipt secret = elim receipt.signature [
    | none ↦ false
    | some signature ↦
        if str_eq signature "" then false else str_eq (sign_receipt receipt secret) signature
  ]
