-- ===== src/Tests/Requests.antt =====
-- Concrete requests, and the keys and accounts that some of them meet.
use monierave.Base.{ℕ, [], ◌∷◌, List, some, none, pos, false}
use monierave.Models.{deposit, internal_transfer, TransferTxResult, IdempotencyKey}
use monierave.Models.Tables.{Db}
use monierave.Banking.Transfer.{TransferTxParams}
use monierave.Banking.Idempotency.{IdempotentTransferTxParams}
use monierave.Banking.Movement.{MovementParams}
use monierave.Banking.Opening.{CreateAccountTxParams}
use monierave.Banking.Lifecycle.{CloseAccountTxParams, AccountStatusTxParams}
use monierave.Tests.Data.{alice_account, bob_account, sample_deposit, sample_db}

-- alice sends bob 1,200 cents.
abbrev pub transfer_request : TransferTxParams
transfer_request = record {
  from_account_public_id = 101;
  to_account_number = "0000000002";
  amount = pos 1_200;
  currency = "USD";
  username = "alice";
  narration = "rent";
  correlation_id = none;
}

abbrev hash_tail : List ℕ
hash_tail =
    2 ∷ 3 ∷ 4 ∷ 5 ∷ 6 ∷ 7 ∷ 8 ∷ 9 ∷ 10 ∷ 11 ∷ 12 ∷ 13 ∷ 14 ∷ 15 ∷ 16 ∷ 17 ∷ 18 ∷ 19 ∷ 20 ∷ 21 ∷ 22
    ∷ 23 ∷ 24 ∷ 25 ∷ 26 ∷ 27 ∷ 28 ∷ 29 ∷ 30 ∷ 31 ∷ 32 ∷ []

abbrev pub request_hash : List ℕ
request_hash = 1 ∷ hash_tail

abbrev pub other_hash : List ℕ
other_hash = 0 ∷ hash_tail

abbrev pub keyed_request : IdempotentTransferTxParams
keyed_request = record {
  transfer = transfer_request;
  idempotency_key = "rent-may";
  request_hash = request_hash;
}

abbrev pub stored_result : TransferTxResult
stored_result = record {
  transaction = record sample_deposit {
    id = 600;
    transaction_type = internal_transfer;
    amount = pos 1_200;
  };
  postings = [];
  from_account = record alice_account { balance = pos 3_800 };
  to_account = record bob_account { balance = pos 1_200 };
  replayed = false;
}

abbrev pub stored_key : IdempotencyKey
stored_key = record {
  id = 1;
  username = "alice";
  operation = "internal_transfer";
  idempotency_key = "rent-may";
  request_hash = request_hash;
  transaction_id = some 600;
  response_status = some 201;
  result_snapshot = some stored_result;
  created_at = 500;
  expires_at = 2_000;
}

-- The key of another request of hers under the same name.
abbrev pub conflicting_key : IdempotencyKey
conflicting_key = record stored_key { request_hash = other_hash }

abbrev pub keyed_db : Db
keyed_db = record sample_db { idempotency_keys = stored_key ∷ [] }

abbrev pub conflicting_db : Db
conflicting_db = record sample_db { idempotency_keys = conflicting_key ∷ [] }

abbrev pub deposit_request : MovementParams
deposit_request = record {
  account_public_id = 102;
  amount = pos 700;
  narration = "cash";
  transaction_type = deposit;
  actor = "teller";
  correlation_id = none;
}

abbrev pub opening_request : CreateAccountTxParams
opening_request = record { owner = "alice"; currency = "EUR" }

abbrev pub closing_request : CloseAccountTxParams
closing_request = record { public_id = 102; username = "bob" }

abbrev pub freeze_request : AccountStatusTxParams
freeze_request = record {
  account_public_id = 101;
  target_status = "frozen";
  actor = "operator";
  reason = "court order";
  correlation_id = some 900;
}

-- Somebody else asks for the transfer.
abbrev pub stolen_request : TransferTxParams
stolen_request = record transfer_request { username = "mallory" }
