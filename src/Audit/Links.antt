-- ===== src/Audit/Links.antt =====
-- go/internal/audit/chain.go: what a valid chain is, and the chains that Next makes.
use payment_infrastructure.Base.{
  suc, ◌≡◌, refl, ap, true, List, [], ◌∷◌, ◌++◌, none, some, arith, length, map, ◌==◌, inl, inr,
  Bool-cases,
}
use payment_infrastructure.Base.Int.{pos, add64}
use payment_infrastructure.Audit.{
  Bytes, CanonicalRecord, Hashing, Chain, Link, next, bytes_equal, same_bytes,
}

same_bytes→eq : (x y : Bytes) → length x ≡ length y → same_bytes x y ≡ true → x ≡ y
unfolding same_bytes
same_bytes→eq [] [] n h = refl
same_bytes→eq [] (y ∷ ys) n h = absurd (omega (arith, n))
same_bytes→eq (x ∷ xs) [] n h = absurd (omega (arith, n))
same_bytes→eq (x ∷ xs) (y ∷ ys) n h = elim (Bool-cases (x == y)) [
  | inl e ↦
      let head : x ≡ y = ground arith in
      let tail = same_bytes→eq xs ys (omega (arith, n)) (ground arith) in cc
  | inr e ↦ absurd (ground arith)
]

pub bytes_equal→eq : (x y : Bytes) → bytes_equal x y ≡ true → x ≡ y
unfolding bytes_equal
bytes_equal→eq x y h = same_bytes→eq x y (ground arith) (ground arith)

same_bytes_refl : (x : Bytes) → same_bytes x x ≡ true
unfolding same_bytes
same_bytes_refl [] = refl
same_bytes_refl (x ∷ xs) = ground (arith, same_bytes_refl xs)

pub bytes_equal_refl : (x : Bytes) → bytes_equal x x ≡ true
unfolding bytes_equal
bytes_equal_refl x = ground (arith, same_bytes_refl x)

-- A chain of links that continues `prev`: each link's previous hash is the hash before it, and its
-- hash is that of the previous hash followed by its record.
pub data IsChain (h : Hashing)
    : Bytes → List CanonicalRecord → List Bytes → List Bytes → Type 0 where
  is_end : (prev : Bytes) → (prevs hashes : List Bytes) → IsChain h prev [] prevs hashes
  is_link :
      (prev payload : Bytes) (rec' : CanonicalRecord) (records : List CanonicalRecord)
      (prevs hashes : List Bytes)
      → h.marshal rec' ≡ some payload
      → IsChain h (h.sha256 (prev ++ payload)) records prevs hashes
      → IsChain h prev (rec' ∷ records) (prev ∷ prevs) (h.sha256 (prev ++ payload) ∷ hashes)

module _ (h : Hashing) where
  -- The records of several decisions chained in turn, up to the first error.
  unfoldable pub next_all : List CanonicalRecord → Chain → Chain × List Link
  next_all [] c = (c, [])
  next_all (rec' ∷ records) c =
      let (c', link) = next h rec' c in
      let (end', links) = next_all records c' in
      elim link [ none ↦ (c, []) | some l ↦ (end', l ∷ links) ]

  abbrev pub AllMarshal : List CanonicalRecord → Type 0
  AllMarshal [] = Unit
  AllMarshal (r ∷ rs) = ((payload : Bytes) × (h.marshal r ≡ some payload)) × AllMarshal rs

  unfoldable pub advance : Bytes → Chain → Chain
  advance payload c = record c {
    seq = add64 c.seq (pos 1);
    prev_hash = h.sha256 (c.prev_hash ++ payload);
  }

  unfoldable link_of : Bytes → Chain → Link
  link_of payload c = record {
    seq = add64 c.seq (pos 1);
    prev_hash = c.prev_hash;
    hash = h.sha256 (c.prev_hash ++ payload);
  }

  next-ok :
      (rec' : CanonicalRecord) (c : Chain) {payload : Bytes}
      → h.marshal rec' ≡ some payload
      → next h rec' c ≡ (advance payload c, some (link_of payload c))
  unfolding next advance link_of
  next-ok rec' c m = rw (m, next) refl

  next_all-step :
      (r : CanonicalRecord) (rs : List CanonicalRecord) (c : Chain) {payload : Bytes}
      → h.marshal r ≡ some payload
      → next_all (r ∷ rs) c ≡ (
        (next_all rs (advance payload c)).0,
        link_of payload c ∷ (next_all rs (advance payload c)).1,
      )
  unfolding next_all link_of
  next_all-step r rs c m =
      ap
        (λ n. elim n.1 [ none ↦ (c, []) | some l ↦ ((next_all rs n.0).0, l ∷ (next_all rs n.0).1) ])
        (next-ok r c m)

  pub next_all-IsChain :
      (records : List CanonicalRecord) (c : Chain)
      → AllMarshal records
      → IsChain h c.prev_hash records
          (map (λ l. l.prev_hash) (next_all records c).1)
          (map (λ l. l.hash) (next_all records c).1)
  unfolding next_all advance link_of
  next_all-IsChain [] c all = is_end _ _ _
  next_all-IsChain (r ∷ rs) c ((payload, m), all) =
      rw (next_all-step r rs c m)
        (is_link c.prev_hash payload r rs _ _ m (next_all-IsChain rs _ all))

  pub length-next_all :
      (records : List CanonicalRecord) (c : Chain)
      → AllMarshal records
      → length (next_all records c).1 ≡ length records
  unfolding next_all
  length-next_all [] c all = refl
  length-next_all (r ∷ rs) c ((payload, m), all) =
      rw (next_all-step r rs c m) (ap suc (length-next_all rs _ all))

  pub next_all-append :
      (records more : List CanonicalRecord) (c : Chain)
      → AllMarshal records
      → next_all (records ++ more) c ≡ (
        (next_all more (next_all records c).0).0,
        (next_all records c).1 ++ (next_all more (next_all records c).0).1,
      )
  unfolding next_all
  next_all-append [] more c all = refl
  next_all-append (r ∷ rs) more c ((payload, m), all) =
      rw
        (
          next_all-step r rs c m,
          next_all-step r (rs ++ more) c m,
          next_all-append rs more (advance payload c) all,
        )
        refl
