-- ===== src/Audit/Verify.antt =====
-- go/internal/audit/chain.go: what Verify finds.
use payment_infrastructure.Base.{
  ℕ, zero, suc, ◌≡◌, refl, ◌↔◌, inl, inr, true, false, List, [], ◌∷◌, ◌++◌, some, arith, get_elem?,
  drop, take, map, Option-cases, ok,
}
use payment_infrastructure.Base.Int.{ℤ, negsuc}
use payment_infrastructure.Audit.{
  Bytes, CanonicalRecord, Hashing, Chain, resume, bytes_equal, new_chain, is_broken, verify_from,
  verify,
}
use payment_infrastructure.Audit.Links.{
  IsChain, is_end, is_link, bytes_equal→eq, bytes_equal_refl, next_all, AllMarshal,
  next_all-IsChain, next_all-append,
}

module _ {A : Type 0} where
  drop-item :
      (xs : List A) (i : ℕ) {x : A} → get_elem? xs i ≡ some x → drop i xs ≡ x ∷ drop (suc i) xs
  drop-item [] i h = absurd (cc)
  drop-item (y ∷ xs) zero h = cc
  drop-item (y ∷ xs) (suc i) h = drop-item xs i h

  item-drop :
      (xs : List A) (i : ℕ) {x : A} {rest : List A}
      → drop i xs ≡ x ∷ rest
      → (get_elem? xs i ≡ some x) × (drop (suc i) xs ≡ rest)
  item-drop [] zero h = absurd (cc)
  item-drop [] (suc i) h = absurd (cc)
  item-drop (y ∷ xs) zero h = (cc, cc)
  item-drop (y ∷ xs) (suc i) h = item-drop xs i h

-- The test of one record passes exactly when both claimed hashes are there and are the right ones.
is_broken-false :
    (h : Hashing) (prev computed : Bytes) (i : ℕ) (prevs hashes : List Bytes)
    → is_broken h prev computed i prevs hashes ≡ ok false
    → (get_elem? prevs i ≡ some prev) × (get_elem? hashes i ≡ some computed)
unfolding is_broken
is_broken-false h prev computed i prevs hashes run = elim (Option-cases (get_elem? prevs i)) [
  | inl e ↦ absurd (ground arith)
  | inr (p, e) ↦ elim (Option-cases (get_elem? hashes i)) [
    | inl e' ↦ absurd (ground arith)
    | inr (q, e') ↦
        let left : bytes_equal prev p ≡ true = ground arith in
        let right : bytes_equal computed q ≡ true = ground arith in
        let same = bytes_equal→eq prev p left in
        let same' = bytes_equal→eq computed q right in (cc, cc)
  ]
]

pub verify_from-IsChain :
    (h : Hashing) (records : List CanonicalRecord) (prev : Bytes) (i : ℕ)
    (prevs hashes : List Bytes)
    → verify_from h prev i records prevs hashes ≡ ok (negsuc 0, true)
    → IsChain h prev records (drop i prevs) (drop i hashes)
unfolding verify_from
verify_from-IsChain h [] prev i prevs hashes run = is_end _ _ _
verify_from-IsChain h (r ∷ rs) prev i prevs hashes run = elim (Option-cases (h.marshal r)) [
  | inl e ↦ absurd (ground arith)
  | inr (payload, e) ↦
      let computed = h.sha256 (prev ++ payload) in
      let unbroken : is_broken h prev computed i prevs hashes ≡ ok false = ground arith in
      let more : verify_from h computed (suc i) rs prevs hashes ≡ ok (negsuc 0, true) =
        ground arith in
      let (p, c) = is_broken-false h prev computed i prevs hashes unbroken in
      rw (drop-item prevs i p, drop-item hashes i c)
        (is_link prev payload r rs _ _ e
          (verify_from-IsChain h rs computed (suc i) prevs hashes more))
]

pub IsChain-verify_from :
    (h : Hashing) {prev : Bytes} {records : List CanonicalRecord} {ps hs : List Bytes} (i : ℕ)
    (prevs hashes : List Bytes)
    → IsChain h prev records ps hs
    → drop i prevs ≡ ps
    → drop i hashes ≡ hs
    → verify_from h prev i records prevs hashes ≡ ok (negsuc 0, true)
unfolding verify_from is_broken
IsChain-verify_from h i prevs hashes (is_end _ _ _) dp dh = refl
IsChain-verify_from h i prevs hashes (is_link prev payload r rs ps hs m rest) dp dh =
    let (p, dp') = item-drop prevs i dp in
    let (q, dh') = item-drop hashes i dh in
    rw
      (
        m,
        p,
        q,
        verify_from,
        is_broken,
        bytes_equal_refl prev,
        bytes_equal_refl (h.sha256 (prev ++ payload)),
      )
      (IsChain-verify_from h (suc i) prevs hashes rest dp' dh')

-- Verify reports an intact chain exactly when the claimed hashes make one from the empty hash on.
pub verify_iff :
    (h : Hashing) (records : List CanonicalRecord) (prevs hashes : List Bytes)
    → (verify h records prevs hashes ≡ ok (negsuc 0, true)) ↔ IsChain h [] records prevs hashes
unfolding verify
verify_iff h records prevs hashes = (
  λ run. verify_from-IsChain h records [] 0 prevs hashes run,
  λ chain. IsChain-verify_from h 0 prevs hashes chain refl refl,
)

-- A chain that Next made from a new chain on, for records that all marshal, passes Verify.
pub verify-next_all :
    (h : Hashing) (shard : ℤ) (records : List CanonicalRecord)
    → AllMarshal h records
    → verify h records
        (map (λ l. l.prev_hash) (next_all h records (new_chain shard)).1)
        (map (λ l. l.hash) (next_all h records (new_chain shard)).1)
      ≡ ok (negsuc 0, true)
unfolding new_chain
verify-next_all h shard records all =
    (verify_iff h records _ _).1 (next_all-IsChain h records (new_chain shard) all)

-- If the earlier records all marshal, a process that resumes at the tip that its predecessor left chains
-- its records as the predecessor
-- would have, on the same shard: the links of both runs are those of one run over all records.
pub resume_continues :
    (h : Hashing) (shard : ℤ) (before after : List CanonicalRecord) (c : Chain)
    → AllMarshal h before
    → (next_all h before c).0.shard ≡ shard
    → let tip = (next_all h before c).0 in
      (next_all h before c).1
        ++ (next_all h after (resume tip.seq tip.prev_hash (new_chain shard))).1
      ≡ (next_all h (before ++ after) c).1
unfolding resume new_chain
resume_continues h shard before after c all e =
    rw (next_all-append h before after c all) (rw (← e) refl)

IsChain-take :
    (h : Hashing) (n : ℕ) {prev : Bytes} {records : List CanonicalRecord} {ps hs : List Bytes}
    → IsChain h prev records ps hs
    → IsChain h prev (take n records) ps hs
IsChain-take h zero chain = is_end _ _ _
IsChain-take h (suc n) (is_end prev ps hs) = is_end prev ps hs
IsChain-take h (suc n) (is_link prev payload r rs ps hs m rest) =
    is_link prev payload r (take n rs) ps hs m (IsChain-take h n rest)

-- Verify does not notice that the last records are gone: every prefix of an intact chain is intact.
verify-take :
    (h : Hashing) (n : ℕ) (records : List CanonicalRecord) (prevs hashes : List Bytes)
    → verify h records prevs hashes ≡ ok (negsuc 0, true)
    → verify h (take n records) prevs hashes ≡ ok (negsuc 0, true)
verify-take h n records prevs hashes run =
    (verify_iff h (take n records) prevs hashes).1
      (IsChain-take h n ((verify_iff h records prevs hashes).0 run))
