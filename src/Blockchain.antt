-- ===== src/Blockchain.antt =====
-- pkg/blockchain/blockchain.go: a chain of hashed blocks. SHA-256, HMAC and the printing of a
-- `float64` amount are not the repository's: they come in a record of functions. The pointers of
-- the Go slice are values here; `AddSignedBlock` signs the block that it has appended.
pub mod Chain
pub mod Linked
pub mod History
pub mod Signatures
pub mod Search
pub mod Examples
use Prim.Native.String.{◌++◌ as str_append}
use spectral_cloud.Prelude.{
  ℕ, zero, suc, ◌+◌, ◌-◌, String, Bool, true, false, Option, none, some, List, [], ◌∷◌, ◌++◌, ◌&&◌,
  ◌||◌, ◌==◌, if◌then◌else◌, ltb, leb, length, get_elem?, take, drop, get_last?, init_of, map,
  select,
}
use spectral_cloud.Prelude.Int.{ℤ, pos, negsuc, pos_part, ltb_ℤ, leb_ℤ, incr}
use spectral_cloud.Prelude.Decimal.{show_int}
use spectral_cloud.Prelude.Bytes.{bytes, same_bytes}

-- What the package takes from the Go libraries.
pub record Crypto : Type 1 where
  pub Amount : Type 0
  pub show_amount : Amount → String
  pub sha256_hex : String → String
  pub hmac_hex : String → String → String

module _ (c : Crypto) where
  open c use {Amount, show_amount, sha256_hex, hmac_hex}

  pub record Transaction : Type 0 where
    pub sender : String
    pub recipient : String
    pub amount : Amount

  pub record Block : Type 0 where
    pub index : ℤ
    pub timestamp : String
    pub transactions : List Transaction
    pub previous_hash : String
    pub hash : String
    pub signature : String

  -- %v of a transaction, and of a slice of them
  unfoldable pub show_transaction : Transaction → String
  show_transaction t = str_append "{" (
      str_append t.sender (
        str_append " "
          (str_append t.recipient (str_append " " (str_append (show_amount t.amount) "}")))))

  unfoldable pub show_rest : List Transaction → String
  show_rest [] = "]"
  show_rest (t ∷ ts) = str_append " " (str_append (show_transaction t) (show_rest ts))

  unfoldable pub show_transactions : List Transaction → String
  unfolding show_rest
  show_transactions [] = "[]"
  show_transactions (t ∷ ts) = str_append "[" (str_append (show_transaction t) (show_rest ts))

  unfoldable pub calculate_hash : ℤ → String → List Transaction → String
  unfolding show_transactions
  calculate_hash index timestamp transactions =
      sha256_hex
        (str_append (show_int index) (str_append timestamp (show_transactions transactions)))

  unfoldable pub create_genesis_block : String → Block
  unfolding calculate_hash
  create_genesis_block now = record {
    index = pos 0;
    timestamp = now;
    transactions = [];
    previous_hash = "";
    hash = calculate_hash (pos 0) now [];
    signature = "";
  }

  unfoldable pub new_blockchain : String → List Block
  unfolding create_genesis_block
  new_blockchain now = create_genesis_block now ∷ []

  unfoldable pub new_blockchain_from_blocks : String → List Block → List Block
  unfolding new_blockchain
  new_blockchain_from_blocks now [] = new_blockchain now
  new_blockchain_from_blocks now (b ∷ bs) = b ∷ bs

  unfoldable pub verify : Block → Bool
  unfolding calculate_hash
  verify b = b.hash == calculate_hash b.index b.timestamp b.transactions

  -- The block after the call, and the signature that is returned.
  unfoldable pub sign_block : Block → String → Block × String
  sign_block b key =
      if key == ""
      then (b, "")
      else (record b { signature = hmac_hex key b.hash }, hmac_hex key b.hash)

  unfoldable pub verify_signature : Block → String → Bool
  unfolding bytes same_bytes
  verify_signature b key =
      if b.signature == "" || key == ""
      then false
      else same_bytes (bytes b.signature) (bytes (hmac_hex key b.hash))

  unfoldable pub next_block : Block → String → List Transaction → Block
  unfolding incr calculate_hash
  next_block previous now transactions = record {
    index = incr previous.index;
    timestamp = now;
    transactions = transactions;
    previous_hash = previous.hash;
    hash = calculate_hash (incr previous.index) now transactions;
    signature = "";
  }

  -- On an empty slice Go panics, which `none` stands for.
  unfoldable pub add_block : List Block → String → List Transaction → Option (List Block × Block)
  unfolding next_block
  add_block blocks now transactions = elim (get_last? blocks) [
    | none ↦ none
    | some previous ↦
        some (
          blocks ++ next_block previous now transactions ∷ [],
          next_block previous now transactions,
        )
  ]

  unfoldable pub add_signed_block :
      List Block → String → List Transaction → String → Option (List Block × Block)
  unfolding add_block sign_block
  add_signed_block blocks now transactions key = elim (add_block blocks now transactions) [
    | none ↦ none
    | some (blocks', b) ↦
        if key == ""
        then some (blocks', b)
        else some (init_of blocks' ++ (sign_block b key).0 ∷ [], (sign_block b key).0)
  ]

  unfoldable pub height : List Block → ℕ
  height blocks = length blocks

  unfoldable pub last_block : List Block → Option Block
  last_block blocks = get_last? blocks

  unfoldable pub remove_last_block : List Block → List Block
  remove_last_block blocks = if leb (length blocks) 1 then blocks else init_of blocks

  unfoldable pub snapshot : List Block → List Block
  snapshot blocks = blocks

  unfoldable pub get_block : List Block → ℤ → Option Block
  get_block blocks index =
      if ltb_ℤ index (pos 0) || leb_ℤ (pos (length blocks)) index
      then none
      else get_elem? blocks (pos_part index)

  unfoldable pub block_range : List Block → ℤ → ℤ → List Block
  block_range blocks start end =
      let n = length blocks in
      let from : ℕ = if ltb_ℤ start (pos 0) then 0 else pos_part start in
      let to : ℤ = if ltb_ℤ (pos n) end then pos n else end in
      if leb_ℤ to (pos from) then [] else take (pos_part to - from) (drop from blocks)

  -- The test on `PreviousHash`, which is not made of the first block.
  unfoldable pub follows : Option String → Block → Bool
  follows none b = true
  follows (some h) b = b.previous_hash == h

  -- The walk of `VerifyChain` from position `i`, after a block with the hash `previous`.
  unfoldable pub verify_from : ℕ → Option String → List Block → ℤ × Bool
  verify_from i previous [] = (negsuc 0, true)
  verify_from i previous (b ∷ bs) =
      let rest = verify_from (suc i) (some b.hash) bs in
      if verify b then (if follows previous b then rest else (pos i, false)) else (pos i, false)

  unfoldable pub verify_chain : List Block → ℤ × Bool
  unfolding verify_from verify follows
  verify_chain blocks = verify_from 0 none blocks

  unfoldable pub transaction_matches : String → String → Transaction → Bool
  transaction_matches sender recipient t =
      (sender == "" || t.sender == sender) && (recipient == "" || t.recipient == recipient)

  -- The inner loop stops at the first transaction that matches.
  unfoldable pub any_matches : String → String → List Transaction → Bool
  unfolding transaction_matches
  any_matches sender recipient [] = false
  any_matches sender recipient (t ∷ ts) =
      transaction_matches sender recipient t || any_matches sender recipient ts

  unfoldable pub search_transactions : List Block → String → String → List Block
  unfolding any_matches
  search_transactions blocks sender recipient =
      select (λ b. any_matches sender recipient b.transactions) blocks

  unfoldable pub load : String → List Block → List Block
  unfolding create_genesis_block
  load now [] = create_genesis_block now ∷ []
  load now (b ∷ bs) = b ∷ bs
