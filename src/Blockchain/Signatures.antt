-- ===== src/Blockchain/Signatures.antt =====
-- Signed blocks, and what the hash of a block covers.
use Prim.Native.String.{◌++◌ as str_append}
use text.Mathlib.TextLemmas.{append_assoc}
use spectral_cloud.Prelude.{
  String, ◌≡◌, ◌≢◌, ◌↔◌, refl, true, some, List, [], ◌∷◌, ◌++◌, arith, eq_iff, eq_refl, ap, ◌∙◌,
  sym, ◌==◌, get_last?,
}
use spectral_cloud.Prelude.Decimal.{show_int}
use spectral_cloud.Prelude.Bytes.{bytes, same_bytes_iff}
use spectral_cloud.Blockchain.{
  Crypto, Transaction, Block, calculate_hash, show_transaction, show_transactions, show_rest,
  verify, sign_block, verify_signature, add_signed_block, next_block,
}
use spectral_cloud.Blockchain.History.{add_signed_block_lem}

module _ (c : Crypto) where
  open c use {hmac_hex}

  -- A signature is accepted exactly when it and the key are not empty and its bytes are those of the
  -- HMAC of the block's hash under the key.
  pub verify_signature_iff :
      (b : Block c) (key : String)
      → (verify_signature c b key ≡ true)
        ↔ ((b.signature ≢ "") × (key ≢ "") × (bytes b.signature ≡ bytes (hmac_hex key b.hash)))
  unfolding verify_signature
  verify_signature_iff b key =
      let mac = hmac_hex key b.hash in
      (
        λ h. (
          λ e. ground (arith, eq_iff b.signature "", e),
          λ e. ground (arith, eq_iff key "", e),
          (same_bytes_iff (bytes b.signature) (bytes mac)).0 (ground arith),
        ),
        λ h. ground (
          arith,
          eq_iff b.signature "",
          eq_iff key "",
          h.0,
          h.1,
          (same_bytes_iff (bytes b.signature) (bytes mac)).1 h.2,
        ),
      )

  sign_block_lem :
      (n : Block c) (key : String)
      → key ≢ ""
      → (sign_block c n key).0 ≡ record n { signature = hmac_hex key n.hash }
  unfolding sign_block
  sign_block_lem n key k = ground (arith, eq_iff key "")

  -- On a chain that is not empty, `AddSignedBlock` with a key that is not empty returns a block
  -- whose hash is right and whose signature is accepted under that key, since no HMAC is printed as
  -- an empty text.
  pub add_signed_block-verify :
      (bs : List (Block c)) (now : String) (ts : List (Transaction c)) (key : String) (b : Block c)
      → ((k m : String) → hmac_hex k m ≢ "")
      → get_last? bs ≡ some b
      → key ≢ ""
      → (bs' : List (Block c)) × (s : Block c) × (add_signed_block c bs now ts key ≡ some (bs', s))
        × (verify c s ≡ true)
        × (verify_signature c s key ≡ true)
  add_signed_block-verify bs now ts key b mac e k =
      let n = next_block c b now ts in
      let s = (sign_block c n key).0 in
      (
        bs ++ s ∷ [],
        s,
        add_signed_block_lem c bs now ts key b e,
        hash_right n key (unfold verify next_block in eq_refl _),
        (verify_signature_iff s key).1 (signed n key k (mac key n.hash)),
      )
    where
      hash_right :
          (n : Block c) (key : String) → verify c n ≡ true → verify c (sign_block c n key).0 ≡ true
      hash_right n key h = unfold verify sign_block in ground arith

      signed :
          (n : Block c) (key : String)
          → key ≢ ""
          → hmac_hex key n.hash ≢ ""
          → let s = (sign_block c n key).0 in
            (s.signature ≢ "") × (key ≢ "") × (bytes s.signature ≡ bytes (hmac_hex key s.hash))
      signed n key k m = rw (sign_block_lem n key k) (m, k, refl)

  -- The printed form of a transaction does not mark where the sender ends.
  abbrev pub left_split : String → String → String → c.Amount → Transaction c
  left_split x y r a = record {
    sender = str_append x (str_append " " y);
    recipient = r;
    amount = a;
  }

  abbrev pub right_split : String → String → String → c.Amount → Transaction c
  right_split x y r a = record {
    sender = x;
    recipient = str_append y (str_append " " r);
    amount = a;
  }

  show_transaction-split :
      (x y r : String) (a : c.Amount)
      → show_transaction c (left_split x y r a) ≡ show_transaction c (right_split x y r a)
  unfolding show_transaction
  show_transaction-split x y r a = simp append_assoc

  show_rest-replace :
      (us vs : List (Transaction c)) (t t' : Transaction c)
      → show_transaction c t ≡ show_transaction c t'
      → show_rest c (us ++ t ∷ vs) ≡ show_rest c (us ++ t' ∷ vs)
  unfolding show_rest
  show_rest-replace [] vs t t' e = rw e
  show_rest-replace (u ∷ us) vs t t' e = rw (show_rest-replace us vs t t' e)

  show_transactions-replace :
      (us vs : List (Transaction c)) (t t' : Transaction c)
      → show_transaction c t ≡ show_transaction c t'
      → show_transactions c (us ++ t ∷ vs) ≡ show_transactions c (us ++ t' ∷ vs)
  unfolding show_transactions
  show_transactions-replace [] vs t t' e = rw e
  show_transactions-replace (u ∷ us) vs t t' e = rw (show_rest-replace us vs t t' e)

  -- `Verify` gives the same answer after a space-separated part of the sender of one transaction is
  -- moved to its recipient, and after the previous hash and the signature are replaced by any others.
  pub verify-resplit :
      (b : Block c) (us vs : List (Transaction c)) (x y r : String) (a : c.Amount) (p s : String)
      → b.transactions ≡ us ++ left_split x y r a ∷ vs
      → verify c (record b {
        transactions = us ++ right_split x y r a ∷ vs;
        previous_hash = p;
        signature = s;
      })
        ≡ verify c b
  unfolding verify calculate_hash
  verify-resplit b us vs x y r a p s e =
      ap (λ text. b.hash == hash_of text)
        (sym (show_transactions-replace us vs _ _ (show_transaction-split x y r a))
          ∙ ap (show_transactions c) (sym e))
    where
      hash_of : String → String
      hash_of text = c.sha256_hex (str_append (show_int b.index) (str_append b.timestamp text))
