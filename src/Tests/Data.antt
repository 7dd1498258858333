-- ===== src/Tests/Data.antt =====
-- The data of the tests: two transactions, blocks and databases that hold them.
use echain.Base.{ℕ, Bytes, [], ◌∷◌, Run, timeout, panic, ok}
use echain.Types.{TxInput, TxOutput, Transaction, BlockHeader, Block}
use echain.Tests.ToyDb.{ToyDb}

abbrev pub output : ℕ → Bytes → TxOutput
output value owner = record { value = value; script_pub_key = record { pub_key_hash = owner } }

abbrev pub input : Bytes → ℕ → TxInput
input id v_out = record {
  tx_id = id;
  v_out = v_out;
  script_sig = record { signature = []; pub_key = [] };
}

-- An address of the toy platform, and the public key hash in it.
abbrev pub owner : Bytes
owner = 1 ∷ 2 ∷ 3 ∷ []

abbrev pub address : Bytes
address = 0 ∷ 1 ∷ 2 ∷ 3 ∷ 9 ∷ 9 ∷ 9 ∷ 9 ∷ []

abbrev pub payment : Transaction
payment = record {
  hash = 10 ∷ [];
  inputs = input (8 ∷ []) 0 ∷ [];
  outputs = output 30 owner ∷ output 12 (5 ∷ []) ∷ [];
  locktime = 100;
}

abbrev pub reward : Transaction
reward = record { hash = 11 ∷ []; inputs = []; outputs = output 1000 owner ∷ []; locktime = 101 }

abbrev pub spending : Transaction
spending = record {
  hash = 12 ∷ [];
  inputs = input (10 ∷ []) 0 ∷ [];
  outputs = output 30 (5 ∷ []) ∷ [];
  locktime = 102;
}

abbrev pub header : BlockHeader
header = record { prev_hash = []; merkle_root = []; timestamp = 50 ∷ []; nonce = 7 }

abbrev pub two_transactions : Block
two_transactions = record { block_header = header; transactions = reward ∷ payment ∷ [] }

abbrev pub three_transactions : Block
three_transactions = record {
  block_header = header;
  transactions = reward ∷ payment ∷ spending ∷ [];
}

abbrev pub empty_db : ToyDb
empty_db = record { entries = [] }

-- The value of a run that is known to end.
abbrev pub value_of : {A : Type 0} → A → Run A → A
value_of spare timeout = spare
value_of spare panic = spare
value_of spare (ok a) = a
