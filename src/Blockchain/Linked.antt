-- ===== src/Blockchain/Linked.antt =====
-- Links and indices when the last block of a chain comes or goes.
use spectral_cloud.Prelude.{
  ℕ, suc, ◌+◌, ◌-◌, String, ◌≡◌, true, Option, some, List, [], ◌∷◌, ◌++◌, arith, length, get_last?,
  init_of, ap, ◌∙◌,
}
use spectral_cloud.Prelude.Int.{pos}
use spectral_cloud.Blockchain.{Crypto, Block, verify}
use spectral_cloud.Blockchain.Chain.{Follows, LinkedFrom, IndexedFrom}

module _ (c : Crypto) where
  -- The hash that the next block has to name, and the position that it gets.
  abbrev pub last_hash : Option String → List (Block c) → Option String
  last_hash p [] = p
  last_hash p (b ∷ bs) = last_hash (some b.hash) bs

  pub last_hash-get_last? :
      (p : Option String) (bs : List (Block c)) (b : Block c)
      → get_last? bs ≡ some b
      → last_hash p bs ≡ some b.hash
  last_hash-get_last? p [] b h = cc
  last_hash-get_last? p (x ∷ []) b h = ground arith
  last_hash-get_last? p (x ∷ y ∷ bs) b h = last_hash-get_last? (some x.hash) (y ∷ bs) b h

  pub LinkedFrom-append :
      (p : Option String) (bs : List (Block c)) (b : Block c)
      → LinkedFrom c p bs
      → verify c b ≡ true
      → Follows c (last_hash p bs) b
      → LinkedFrom c p (bs ++ b ∷ [])
  LinkedFrom-append p [] b h v f = (v, f, tt)
  LinkedFrom-append p (x ∷ bs) b h v f = (h.0, h.1, LinkedFrom-append (some x.hash) bs b h.2 v f)

  pub LinkedFrom-init_of :
      (p : Option String) (bs : List (Block c)) → LinkedFrom c p bs → LinkedFrom c p (init_of bs)
  LinkedFrom-init_of p [] h = tt
  LinkedFrom-init_of p (x ∷ []) h = tt
  LinkedFrom-init_of p (x ∷ y ∷ bs) h = (h.0, h.1, LinkedFrom-init_of (some x.hash) (y ∷ bs) h.2)

  pub IndexedFrom-append :
      (i : ℕ) (bs : List (Block c)) (b : Block c)
      → IndexedFrom c i bs
      → b.index ≡ pos (i + length bs)
      → IndexedFrom c i (bs ++ b ∷ [])
  IndexedFrom-append i [] b h e = (e ∙ ap pos (omega arith), tt)
  IndexedFrom-append i (x ∷ bs) b h e =
      (h.0, IndexedFrom-append (suc i) bs b h.1 (e ∙ ap pos (omega arith)))

  pub IndexedFrom-init_of :
      (i : ℕ) (bs : List (Block c)) → IndexedFrom c i bs → IndexedFrom c i (init_of bs)
  IndexedFrom-init_of i [] h = tt
  IndexedFrom-init_of i (x ∷ []) h = tt
  IndexedFrom-init_of i (x ∷ y ∷ bs) h = (h.0, IndexedFrom-init_of (suc i) (y ∷ bs) h.1)

  pub IndexedFrom-get_last? :
      (i : ℕ) (bs : List (Block c)) (b : Block c)
      → IndexedFrom c i bs
      → get_last? bs ≡ some b
      → b.index ≡ pos (i + (length bs - 1))
  IndexedFrom-get_last? i [] b h e = cc
  IndexedFrom-get_last? i (x ∷ []) b h e = ground (arith, h.0)
  IndexedFrom-get_last? i (x ∷ y ∷ bs) b h e =
      IndexedFrom-get_last? (suc i) (y ∷ bs) b h.1 e ∙ ap pos (omega arith)
