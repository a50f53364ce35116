-- ===== src/Audit/Tamper.antt =====
-- go/internal/audit/chain.go: what an edit of the persisted records costs.
use payment_infrastructure.Base.{
  ◌≡◌, refl, sym, ap, ◌∙◌, ◌≢◌, ◌⊎◌, inl, inr, true, List, [], ◌∷◌, ◌++◌, arith, length, map, ok,
  Bool-cases,
}
use payment_infrastructure.Base.Int.{negsuc}
use payment_infrastructure.Audit.{Bytes, CanonicalRecord, Hashing, bytes_equal, verify}
use payment_infrastructure.Audit.Links.{IsChain, is_end, is_link, bytes_equal→eq, bytes_equal_refl}
use payment_infrastructure.Audit.Verify.{verify_iff}

-- Two inputs with one hash.
abbrev pub Collision : Hashing → Type 0
Collision h = (x : Bytes) × (y : Bytes) × (x ≢ y) × (h.sha256 x ≡ h.sha256 y)

-- The last hash of a chain, from the hash before it.
abbrev pub last_hash : Bytes → List Bytes → Bytes
last_hash prev [] = prev
last_hash prev (hash ∷ hashes) = last_hash hash hashes

append-split :
    (xs ys xs' ys' : Bytes)
    → length xs ≡ length xs'
    → xs ++ ys ≡ xs' ++ ys'
    → (xs ≡ xs') × (ys ≡ ys')
append-split [] ys [] ys' n e = (refl, e)
append-split [] ys (x ∷ xs') ys' n e = absurd (omega (arith, n))
append-split (x ∷ xs) ys [] ys' n e = absurd (omega (arith, n))
append-split (x ∷ xs) ys (x' ∷ xs') ys' n e =
    let tails : xs ++ ys ≡ xs' ++ ys' = cc in
    let heads : x ≡ x' = cc in
    let (front, back) = append-split xs ys xs' ys' (omega (arith, n)) tails in (cc, back)

module _ (h : Hashing)
    (fixed_length : (x y : Bytes) → length (h.sha256 x) ≡ length (h.sha256 y)) where
  chain_fixed :
      {prev prev' : Bytes} {records records' : List CanonicalRecord} {ps hs ps' hs' : List Bytes}
      → IsChain h prev records ps hs
      → IsChain h prev' records' ps' hs'
      → length prev ≡ length prev'
      → length records ≡ length hs
      → length records' ≡ length hs'
      → length records ≡ length records'
      → last_hash prev hs ≡ last_hash prev' hs'
      → ((prev ≡ prev') × (map h.marshal records ≡ map h.marshal records')) ⊎ Collision h
  chain_fixed (is_end prev ps []) (is_end prev' ps' []) n l l' k e = inl (e, refl)
  chain_fixed (is_end prev ps (x ∷ hs)) b n l l' k e = absurd (omega (arith, l))
  chain_fixed (is_end prev ps []) (is_end prev' ps' (x ∷ hs)) n l l' k e =
      absurd (omega (arith, l'))
  chain_fixed (is_end prev ps hs) (is_link _ _ _ _ _ _ _ _) n l l' k e = absurd (omega (arith, k))
  chain_fixed (is_link _ _ _ _ _ _ _ _) (is_end prev ps hs) n l l' k e = absurd (omega (arith, k))
  chain_fixed (is_link prev payload r rs ps hs m rest)
        (is_link prev' payload' r' rs' ps' hs' m' rest') n l l' k e =
      let x = prev ++ payload in
      let y = prev' ++ payload' in
      elim (chain_fixed rest rest' (fixed_length x y) (omega (arith, l)) (omega (arith, l'))
        (omega (arith, k)) e) [
          | inr collision ↦ inr collision
          | inl (hashes, records) ↦ elim (Bool-cases (bytes_equal x y)) [
            | inl same ↦
                let (front, back) =
                  append-split prev payload prev' payload' n (bytes_equal→eq x y same) in
                let head : h.marshal r ≡ h.marshal r' = cc in inl (front, cc)
            | inr other ↦
                let distinct : x ≢ y =
                  λ same. absurd (cc (sym (bytes_equal_refl x) ∙ ap (bytes_equal x) same)) in
                inr (x, y, distinct, hashes)
          ]
        ]

  -- For a hash of fixed length: if two histories of the same length, with one claimed hash for each
  -- record, both pass Verify and end in the same hash, all their records
  -- have the same JSON forms, or the two histories exhibit a collision of the hash function.
  pub verify_binds :
      (records records' : List CanonicalRecord) (prevs hashes prevs' hashes' : List Bytes)
      → verify h records prevs hashes ≡ ok (negsuc 0, true)
      → verify h records' prevs' hashes' ≡ ok (negsuc 0, true)
      → length records ≡ length hashes
      → length records' ≡ length hashes'
      → length records ≡ length records'
      → last_hash [] hashes ≡ last_hash [] hashes'
      → (map h.marshal records ≡ map h.marshal records') ⊎ Collision h
  verify_binds records records' prevs hashes prevs' hashes' run run' l l' k e =
      elim (chain_fixed ((verify_iff h records prevs hashes).0 run)
        ((verify_iff h records' prevs' hashes').0 run') refl l l' k e) [
          | inl (_, same) ↦ inl same
          | inr collision ↦ inr collision
        ]
