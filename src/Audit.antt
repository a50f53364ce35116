-- ===== src/Audit.antt =====
-- go/internal/audit/chain.go: the hash chain. A nil slice of bytes is the empty list, as
-- `bytesEqual` and `Write` take it. SHA-256 and json.Marshal are parameters.
pub mod Links
pub mod Verify
pub mod Tamper
use payment_infrastructure.Base.{
  ℕ, suc, ◌+◌, String, Bool, true, false, not, ◌&&◌, List, [], ◌∷◌, ◌++◌, Option, none, some, Run,
  ok, panic, ◌==◌, length, get_elem?, if◌then◌else◌,
}
use payment_infrastructure.Base.Int.{ℤ, pos, negsuc, add64}

abbrev pub Bytes : Type 0
Bytes = List ℕ

pub record CanonicalRecord : Type 0 where
  pub end_to_end_id : String
  pub decision_seq : ℤ
  pub accepted_at_ms : ℤ
  pub decided_at_ms : ℤ
  pub action : String
  pub p_model : String
  pub policy_version : String
  pub model_bundle_version : String
  pub rules_version : String

-- `sha256.New` with its writes and `Sum(nil)`, and `json.Marshal`, which may fail.
pub record Hashing : Type 0 where
  pub sha256 : Bytes → Bytes
  pub marshal : CanonicalRecord → Option Bytes

pub record Chain : Type 0 where
  pub shard : ℤ
  pub seq : ℤ
  pub prev_hash : Bytes

-- What `Next` returns without an error.
pub record Link : Type 0 where
  pub seq : ℤ
  pub prev_hash : Bytes
  pub hash : Bytes

unfoldable pub new_chain : ℤ → Chain
new_chain shard = record { shard = shard; seq = pos 0; prev_hash = [] }

unfoldable pub resume : ℤ → Bytes → Chain → Chain
resume seq last_hash c = record c { seq = seq; prev_hash = last_hash }

-- The length test and the loop of `bytesEqual`.
unfoldable pub same_bytes : Bytes → Bytes → Bool
same_bytes [] ys = true
same_bytes (x ∷ xs) [] = false
same_bytes (x ∷ xs) (y ∷ ys) = if not (x == y) then false else same_bytes xs ys

unfoldable pub bytes_equal : Bytes → Bytes → Bool
unfolding same_bytes
bytes_equal a b = if not (length a == length b) then false else same_bytes a b

module _ (h : Hashing) where
  -- `Next`: the chain afterwards, and the link or an error.
  unfoldable pub next : CanonicalRecord → Chain → Chain × Option Link
  next rec' c = elim (h.marshal rec') [
    | none ↦ (c, none)
    | some payload ↦
        let next_hash = h.sha256 (c.prev_hash ++ payload) in
        let seq = add64 c.seq (pos 1) in
        (
          record c { seq = seq; prev_hash = next_hash },
          some (record { seq = seq; prev_hash = c.prev_hash; hash = next_hash }),
        )
  ]

  -- One turn of the loop of `Verify` after marshalling: does the record at `i` break the chain?
  -- `||` reads the second slice only if the first test passes, and an index out of range panics.
  unfoldable pub is_broken : Bytes → Bytes → ℕ → List Bytes → List Bytes → Run Bool
  unfolding bytes_equal
  is_broken prev computed i claimed_prev_hash claimed_hash = elim (get_elem? claimed_prev_hash i) [
    | none ↦ panic
    | some p ↦ if not (bytes_equal prev p) then ok true else elim (get_elem? claimed_hash i) [
      | none ↦ panic
      | some c ↦ ok (not (bytes_equal computed c))
    ]
  ]

  -- The loop of `Verify` from index `i` on.
  unfoldable pub verify_from :
      Bytes → ℕ → List CanonicalRecord → List Bytes → List Bytes → Run (ℤ × Bool)
  unfolding is_broken
  verify_from prev i [] claimed_prev_hash claimed_hash = ok (negsuc 0, true)
  verify_from prev i (rec' ∷ records) claimed_prev_hash claimed_hash = elim (h.marshal rec') [
    | none ↦ ok (pos i, false)
    | some payload ↦
        let computed = h.sha256 (prev ++ payload) in
        let rest = verify_from computed (suc i) records claimed_prev_hash claimed_hash in
        elim (is_broken prev computed i claimed_prev_hash claimed_hash) [
          | panic ↦ panic
          | ok true ↦ ok (pos i, false)
          | ok false ↦ rest
        ]
  ]

  unfoldable pub verify : List CanonicalRecord → List Bytes → List Bytes → Run (ℤ × Bool)
  unfolding verify_from
  verify records claimed_prev_hash claimed_hash =
      verify_from [] 0 records claimed_prev_hash claimed_hash
