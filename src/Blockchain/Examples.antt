-- ===== src/Blockchain/Examples.antt =====
-- Tests of the chain, and its theorems at concrete inputs, over stand-ins for the hash functions.
use Prim.Native.String.{◌++◌ as str_append}
use text.Mathlib.TextLemmas.{cons≢nil}
use mathlib.Core.List.{Memᴰ, Sublist}
use spectral_cloud.Prelude.{
  ℕ, suc, ◌+◌, ◌<◌, String, ◌≡◌, ◌≢◌, ◌↔◌, ◌⊎◌, refl, true, false, none, some, List, [], ◌∷◌, arith,
  eq_iff, length, take, get_elem?, get_last?, if◌then◌else◌,
}
use spectral_cloud.Prelude.Int.{pos, negsuc, ltb_ℤ}
use spectral_cloud.Prelude.Decimal.{show, show_int}
use spectral_cloud.Prelude.Bytes.{bytes}
use spectral_cloud.Blockchain.{
  Crypto, Transaction, Block, new_blockchain, verify, verify_signature, add_signed_block,
  remove_last_block, get_block, block_range, verify_chain, search_transactions, calculate_hash,
  show_transaction,
}
use spectral_cloud.Blockchain.Chain.{IsIntact, verify_chain-decides}
use spectral_cloud.Blockchain.History.{
  Call, adds, signs, removes, run, IsGood, run-new_blockchain-IsGood,
  remove_last_block-add_signed_block,
}
use spectral_cloud.Blockchain.Signatures.{
  verify_signature_iff, add_signed_block-verify, verify-resplit,
}
use spectral_cloud.Blockchain.Search.{Some, block_range-get_block, search_transactions-mem}

-- The stand-ins keep what they are given.
abbrev plain : Crypto
plain = record {
  Amount = ℕ;
  show_amount = show;
  sha256_hex = λ s. str_append "#" s;
  hmac_hex = λ k m. String.◌∷◌ "h" (str_append k m);
}

plain_hmac : (k m : String) → plain.hmac_hex k m ≢ ""
plain_hmac k m e = cons≢nil e

abbrev pay : String → String → ℕ → Transaction plain
pay from to n = record { sender = from; recipient = to; amount = n }

abbrev first : Block plain
first = record {
  index = pos 0;
  timestamp = "t0";
  transactions = [];
  previous_hash = "";
  hash = "#0t0[]";
  signature = "";
}

abbrev second : Block plain
second = record {
  index = pos 1;
  timestamp = "t1";
  transactions = pay "ann" "bob" 5 ∷ [];
  previous_hash = "#0t0[]";
  hash = "#1t1[{ann bob 5}]";
  signature = "";
}

abbrev pair : List (Block plain)
pair = first ∷ second ∷ []

pair_intact : verify_chain plain pair ≡ (negsuc 0, true)
unfolding verify_chain calculate_hash show_int show_transaction
pair_intact = refl

swapped_broken : verify_chain plain (second ∷ first ∷ []) ≡ (pos 1, false)
unfolding verify_chain calculate_hash show_int show_transaction
swapped_broken = refl

verify_chain-decides_example :
    ((verify_chain plain pair ≡ (negsuc 0, true)) × IsIntact plain pair)
    ⊎ ((k : ℕ) × (verify_chain plain pair ≡ (pos k, false))
        × (k < length pair)
        × IsIntact plain (take k pair)
        × (¬ IsIntact plain (take (suc k) pair)))
verify_chain-decides_example = verify_chain-decides plain pair

abbrev history : List (Call plain)
history = adds "t1" (pay "ann" "bob" 5 ∷ []) ∷ signs "t2" [] "key" ∷ removes ∷ []

run-new_blockchain-IsGood_example :
    (bs : List (Block plain)) × (run plain (new_blockchain plain "t0") history ≡ some bs)
    × IsGood plain bs
run-new_blockchain-IsGood_example = run-new_blockchain-IsGood plain "t0" history (omega arith)

remove_last_block-add_signed_block_example :
    (bs' : List (Block plain)) × (s : Block plain) × (add_signed_block plain pair "t2" [] "key"
      ≡ some (bs', s))
    × (get_last? bs' ≡ some s)
    × (remove_last_block plain bs' ≡ pair)
remove_last_block-add_signed_block_example =
    remove_last_block-add_signed_block plain pair "t2" [] "key" second refl

verify_signature_iff_example : (verify_signature plain second "key" ≡ true) ↔ (
    (second.signature ≢ "")
    × (◌≢◌ {A = String} "key" "")
    × (bytes second.signature ≡ bytes (plain.hmac_hex "key" second.hash)))
verify_signature_iff_example = verify_signature_iff plain second "key"

key_given : ◌≢◌ {A = String} "key" ""
key_given = ground (arith, eq_iff "key" "")

add_signed_block-verify_example :
    (bs' : List (Block plain)) × (s : Block plain) × (add_signed_block plain pair "t2" [] "key"
      ≡ some (bs', s))
    × (verify plain s ≡ true)
    × (verify_signature plain s "key" ≡ true)
add_signed_block-verify_example =
    add_signed_block-verify plain pair "t2" [] "key" second plain_hmac refl key_given

abbrev double_name : Block plain
double_name = record second {
  transactions = pay "ann bob" "carl" 5 ∷ [];
  hash = "#1t1[{ann bob carl 5}]";
}

verify-resplit_example :
    verify plain (record double_name {
      transactions = pay "ann" "bob carl" 5 ∷ [];
      previous_hash = "x";
      signature = "";
    })
    ≡ verify plain double_name
verify-resplit_example = verify-resplit plain double_name [] [] "ann" "bob" "carl" 5 "x" "" refl

double_name_verifies : verify plain double_name ≡ true
unfolding verify calculate_hash show_int show_transaction
double_name_verifies = refl

block_range-get_block_example :
    get_elem? (block_range plain pair (negsuc 0) (pos 9)) 1
    ≡ (if ltb_ℤ (pos (0 + 1)) (pos 9) then get_block plain pair (pos (0 + 1)) else none)
block_range-get_block_example = block_range-get_block plain pair (negsuc 0) (pos 9) 1

search_transactions-mem_example :
    Sublist (search_transactions plain pair "ann" "") pair
    × ((b : Block plain)
        → Memᴰ b (search_transactions plain pair "ann" "")
          ↔ (Memᴰ b pair × Some plain "ann" "" b.transactions))
search_transactions-mem_example = search_transactions-mem plain pair "ann" ""
