-- ===== src/Tests/Audit.antt =====
-- The theorems on go/internal/audit/chain.go with a toy hash, the number of bytes.
use payment_infrastructure.Base.{
  ◌≡◌, refl, ◌↔◌, ◌⊎◌, true, List, [], ◌∷◌, ◌++◌, some, ok, length, map, String, bytes,
}
use payment_infrastructure.Base.Int.{pos, negsuc}
use payment_infrastructure.Audit.{
  Bytes, CanonicalRecord, Hashing, Link, new_chain, resume, verify, next,
}
use payment_infrastructure.Audit.Links.{IsChain, next_all}
use payment_infrastructure.Audit.Verify.{verify_iff, verify-next_all, resume_continues}
use payment_infrastructure.Audit.Tamper.{Collision, verify_binds}

abbrev hashing : Hashing
hashing = record { sha256 = λ xs. length xs ∷ []; marshal = λ r. some (bytes r.action) }

abbrev entry : String → CanonicalRecord
entry action = record {
  end_to_end_id = "e2e-1";
  decision_seq = pos 0;
  accepted_at_ms = pos 1;
  decided_at_ms = pos 2;
  action = action;
  p_model = "nil";
  policy_version = "v1";
  model_bundle_version = "m1";
  rules_version = "r1";
}

abbrev history : List CanonicalRecord
history = entry "ALLOW" ∷ entry "HOLD" ∷ []

abbrev links : List Link
links = (next_all hashing history (new_chain (pos 0))).1

abbrev prevs : List Bytes
prevs = map (λ l. l.prev_hash) links

abbrev hashes : List Bytes
hashes = map (λ l. l.hash) links

verify_iff_example :
    (verify hashing history prevs hashes ≡ ok (negsuc 0, true))
    ↔ IsChain hashing [] history prevs hashes
verify_iff_example = verify_iff hashing history prevs hashes

verify-next_all_example : verify hashing history prevs hashes ≡ ok (negsuc 0, true)
verify-next_all_example =
    verify-next_all hashing (pos 0) history ((bytes "ALLOW", refl), ((bytes "HOLD", refl), tt))

resume_continues_example :
    links
      ++ (next_all hashing (entry "BLOCK" ∷ []) (
          resume
            (next_all hashing history (new_chain (pos 0))).0.seq
            (next_all hashing history (new_chain (pos 0))).0.prev_hash
            (new_chain (pos 0)))).1
    ≡ (next_all hashing (history ++ entry "BLOCK" ∷ []) (new_chain (pos 0))).1
unfolding next_all next new_chain
resume_continues_example =
    resume_continues hashing (pos 0) history (entry "BLOCK" ∷ []) (new_chain (pos 0))
      ((bytes "ALLOW", refl), ((bytes "HOLD", refl), tt)) refl

verify_binds_example :
    (map hashing.marshal history ≡ map hashing.marshal history) ⊎ Collision hashing
unfolding next_all next new_chain
verify_binds_example =
    verify_binds hashing (λ x y. refl) history history prevs hashes prevs hashes
      verify-next_all_example verify-next_all_example refl refl refl refl
