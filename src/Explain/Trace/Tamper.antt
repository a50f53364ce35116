-- ===== src/Explain/Trace/Tamper.antt =====
-- go/internal/explain/trace.go with go/internal/wal/wal.go: what the check of the audit link says.
use payment_infrastructure.Base.{
  ◌≡◌, ◌≢◌, refl, sym, ap, ◌∙◌, ◌⊎◌, inl, inr, Bool, true, false, List, [], ◌∷◌, ◌++◌, Option, some,
  Option-cases, Bool-cases, append_assoc, str_eq,
}
use mathlib.Core.List.{append_cancel_left}
use payment_infrastructure.Base.Int.{ℤ, pos, add64}
use payment_infrastructure.Base.Float.{Float64}
use payment_infrastructure.Audit.{Bytes, Hashing, Link, bytes_equal, next}
use payment_infrastructure.Audit.Links.{bytes_equal→eq, bytes_equal_refl}
use payment_infrastructure.Audit.Tamper.{Collision}
use payment_infrastructure.Contract.Decision.{Decision}
use payment_infrastructure.Contract.Event.{Event}
use payment_infrastructure.Features.Numbers.{Math}
use payment_infrastructure.Decide.Engine.{Engine}
use payment_infrastructure.Wal.{Wal, Codec, Answers, append, canonical, stamp, line_of}
use payment_infrastructure.Explain.Trace.{
  ReproCheck, chain_check, chain_intact_of, rescore, reprice, reproduce,
}

-- The last check is the audit link's, and decides.
chain_intact_of-last :
    (cs : List ReproCheck) (c : ReproCheck) (intact : Bool)
    → str_eq c.name "Audit chain link" ≡ true
    → chain_intact_of (cs ++ c ∷ []) intact ≡ c.matches
unfolding chain_intact_of
chain_intact_of-last [] c intact h = rw h refl
chain_intact_of-last (x ∷ cs) c intact h = chain_intact_of-last cs c _ h

-- The link that Next makes.
abbrev link : Hashing → Wal → (payload : Bytes) → Link
link h w payload = record {
  seq = add64 w.chain.seq (pos 1);
  prev_hash = w.chain.prev_hash;
  hash = h.sha256 (w.chain.prev_hash ++ payload);
}

module _ {F : Type 0} ⦃f : Float64 F⦄ (h : Hashing) where
  -- What a check that matches says.
  link_of :
      (d : Decision F) (payload : Bytes)
      → h.marshal (canonical d) ≡ some payload
      → (chain_check h d).matches ≡ bytes_equal (h.sha256 (d.prev_hash ++ payload)) d.hash
  unfolding chain_check
  link_of d payload e = rw e refl

  stamped :
      (c : Codec F) (os : Answers) (d : Decision F) (w : Wal) (payload : Bytes)
      → h.marshal (canonical d) ≡ some payload
      → (append h c os d w).1 ≡ stamp w.chain.shard (link h w payload) d
  unfolding append next
  stamped c os d w payload e =
      elim (Option-cases
        (line_of c (link h w payload) (stamp w.chain.shard (link h w payload) d))) [
          | inl none_line ↦ rw (append, e, none_line) refl
          | inr (lb, line) ↦ rw (append, e, line) refl
        ]

  stamped-matches :
      (d : Decision F) (shard : ℤ) (w : Wal) (payload : Bytes)
      → h.marshal (canonical d) ≡ some payload
      → (chain_check h (stamp shard (link h w payload) d)).matches ≡ true
  unfolding stamp canonical
  stamped-matches d shard w payload e =
      link_of (stamp shard (link h w payload) d) payload e
      ∙ bytes_equal_refl (h.sha256 (w.chain.prev_hash ++ payload))

  -- A record with the same links whose check matches has the same JSON form, or there is a collision.
  same_form :
      (x : Decision F) (prev payload : Bytes)
      → x.prev_hash ≡ prev
      → x.hash ≡ h.sha256 (prev ++ payload)
      → (chain_check h x).matches ≡ true
      → (h.marshal (canonical x) ≡ some payload) ⊎ Collision h
  unfolding chain_check
  same_form x prev payload at hashed good = elim (Option-cases (h.marshal (canonical x))) [
    | inl e ↦ let bad : (chain_check h x).matches ≡ false = rw e refl in absurd (cc)
    | inr (own, e) ↦
        let equal : h.sha256 (x.prev_hash ++ own) ≡ x.hash =
          bytes_equal→eq _ _ (sym (link_of x own e) ∙ good) in
        let both : h.sha256 (prev ++ own) ≡ h.sha256 (prev ++ payload) =
          ap (λ p. h.sha256 (p ++ own)) (sym at) ∙ equal ∙ hashed in
        elim (Bool-cases (bytes_equal (prev ++ own) (prev ++ payload))) [
          | inl same ↦
              inl (e ∙ ap some (append_cancel_left prev own payload (bytes_equal→eq _ _ same)))
          | inr other ↦
              let distinct : prev ++ own ≢ prev ++ payload = λ same.
                absurd (
                  cc
                    (sym (bytes_equal_refl (prev ++ own)) ∙ ap (bytes_equal (prev ++ own)) same)) in
              inr (prev ++ own, prev ++ payload, distinct, both)
        ]
  ]

module _ {F : Type 0} ⦃f : Float64 F⦄ ⦃m : Math F⦄ (h : Hashing) where
  intact :
      (e : Engine F) (d : Decision F) (ev : Option Event)
      → (reproduce h e d ev).chain_intact ≡ (chain_check h d).matches
  unfolding reproduce chain_check
  intact e d ev =
      let (checks3, trace3, adj) = rescore e d (e.score d.features) in
      let (checks4, trace4) = reprice e d adj ev in
      ap (λ cs. chain_intact_of cs false) (sym (append_assoc checks3 checks4 _))
      ∙ chain_intact_of-last (checks3 ++ checks4) (chain_check h d) false refl

  -- When Append has made the link of a decision, Reproduce finds the stamped decision's link intact, with
  -- any engine and event. Of any other record that is given the same two hashes, it finds the link broken,
  -- unless the record has the same canonical JSON form or there is a collision of the hash.
  pub reproduce-append :
      (c : Codec F) (os : Answers) (d x : Decision F) (w : Wal) (payload : Bytes) (e : Engine F)
      (ev : Option Event)
      → h.marshal (canonical d) ≡ some payload
      → let d' = (append h c os d w).1 in
        let x' = record x { prev_hash = d'.prev_hash; hash = d'.hash } in
        ((reproduce h e d' ev).chain_intact ≡ true)
        × (((reproduce h e x' ev).chain_intact ≡ false)
            ⊎ (h.marshal (canonical x) ≡ h.marshal (canonical d))
            ⊎ Collision h)
  unfolding stamp canonical
  reproduce-append c os d x w payload e ev made =
      let d' = (append h c os d w).1 in
      let is = stamped h c os d w payload made in
      let x' : Decision F = record x { prev_hash = d'.prev_hash; hash = d'.hash } in
      (
        ap (λ y. (reproduce h e y ev).chain_intact) is
            ∙ intact e (stamp w.chain.shard (link h w payload) d) ev
            ∙ stamped-matches h d w.chain.shard w payload made,
        elim (Bool-cases (reproduce h e x' ev).chain_intact) [
          | inr broken ↦ inl broken
          | inl good ↦
              elim (same_form h x' w.chain.prev_hash payload (ap (λ y. y.prev_hash) is)
                (ap (λ y. y.hash) is) (sym (intact e x' ev) ∙ good)) [
                  | inl form ↦ inr (inl (form ∙ sym made))
                  | inr collision ↦ inr (inr collision)
                ]
        ],
      )
