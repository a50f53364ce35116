-- ===== src/Server/Replays.antt =====
-- go/cmd/nazar/handlers.go: a repeated request gets the stored decision.
use payment_infrastructure.Base.{
  ℕ, String, ◌≡◌, refl, sym, ap, ◌∙◌, ◌⊎◌, inl, inr, Bool, true, false, List, [], ◌∷◌, some, lookup,
  Run, ok, ◌>>=◌, >>=-eq-ok, ok-eq, str_eq, eq_iff, Option-cases, Bool-cases, All,
}
use payment_infrastructure.Base.Float.{Float64}
use payment_infrastructure.Audit.{Bytes}
use payment_infrastructure.Contract.Event.{Event}
use payment_infrastructure.Contract.Decision.{Decision}
use payment_infrastructure.Features.Numbers.{Math}
use payment_infrastructure.Obs.Latency.{LatencyTracker, record_sample}
use payment_infrastructure.Profile.Idempotency.{
  Loaded, not_found, load_error, found, load_decision, store_decision, idempotency_key, expire,
  lookup-store_decision, lookup-store_decision_self, lookup-expire,
}
use payment_infrastructure.Server.Events.{stamp_event}
use payment_infrastructure.Server.{
  fresh_decision, logged, latency_sample, settled, Server, Encoders, Surroundings, decided, persist,
  decide_and_persist, run_async, take_job,
}

-- What happens to the server: a call of DecideAndPersist, a goroutine of the asynchronous lane, and the
-- expiry of a key.
pub data Happening (F : Type 0) : Type 0 where
  request : Surroundings F → Event → Happening F
  async_job : ℕ → Happening F
  expires : String → Happening F

Loaded-cases :
    {F : Type 0} (l : Loaded F)
    → ((d : Decision F) × (l ≡ found d)) ⊎ ((l ≡ not_found) ⊎ (l ≡ load_error))
Loaded-cases not_found = inr (inl refl)
Loaded-cases load_error = inr (inr refl)
Loaded-cases (found d) = inl (d, refl)

module _ {F : Type 0} ⦃f : Float64 F⦄ ⦃m : Math F⦄ (enc : Encoders F) where
  unfoldable pub happen : Happening F → Server F → Run (Server F)
  happen (request env ev) s = decide_and_persist enc env ev s >>= λ done. ok done.0
  happen (async_job i) s = ok (run_async enc i s)
  happen (expires key) s = ok (record s { stored = expire key s.stored })

  unfoldable pub happen_all : List (Happening F) → Server F → Run (Server F)
  unfolding happen
  happen_all [] s = ok s
  happen_all (h ∷ hs) s = happen h s >>= happen_all hs

  -- The key of the id has not expired, and its loads do not fail.
  abbrev pub Remembers : String → Happening F → Type 0
  Remembers id (request env ev) = str_eq ev.end_to_end_id id ≡ true → env.load_fails ≡ false
  Remembers id (async_job i) = Unit
  Remembers id (expires key) = str_eq key (idempotency_key id) ≡ false

  -- The parts of a run of the path that returned.
  persist-eq-ok :
      (env : Surroundings F) (ev : Event) (d : Decision F) (s : Server F)
      (done : Server F × Decision F)
      → persist enc env ev d s ≡ ok done
      → (latency : LatencyTracker F) × (done ≡ (
        settled enc env ev (logged enc env d s).0 (logged enc env d s).1 latency s,
        (logged enc env d s).1,
      ))
  unfolding persist
  persist-eq-ok env ev d s done h =
      let (wal, final) = logged enc env d s in
      let rest : LatencyTracker F → Run (Server F × Decision F) =
        λ latency. ok (settled enc env ev wal final latency s, final) in
      let (latency, _, ends) = >>=-eq-ok (record_sample (latency_sample final) s.latency) rest h in
      (latency, sym (ok-eq ends))

  -- The parts of a run that made a decision.
  pub fresh-eq-ok :
      (env : Surroundings F) (event : Event) (s : Server F) (out : Server F × Decision F × Bool)
      → fresh_decision enc env (stamp_event env.t0_ms event) s ≡ ok out
      → (d : Decision F) × (done : Server F × Decision F) × (decided env
            (stamp_event env.t0_ms event)
            s
          ≡ ok d)
        × (persist enc env (stamp_event env.t0_ms event) d s ≡ ok done)
        × (out ≡ (done.0, done.1, false))
  unfolding fresh_decision
  fresh-eq-ok env event s out h =
      let ev = stamp_event env.t0_ms event in
      let answer : Server F × Decision F → Run (Server F × Decision F × Bool) =
        λ done. ok (done.0, done.1, false) in
      let (d, made, rest) =
        >>=-eq-ok (decided env ev s) (λ d. persist enc env ev d s >>= answer) h in
      let (done, kept, ends) = >>=-eq-ok (persist enc env ev d s) answer rest in
      (d, done, made, kept, sym (ok-eq ends))

  -- A stored decision is the answer, and nothing changes.
  pub replays :
      (env : Surroundings F) (ev : Event) (s : Server F) (b : Bytes) (d : Decision F)
      → lookup (idempotency_key ev.end_to_end_id) s.stored ≡ some b
      → enc.codec.unmarshal_decision b ≡ some d
      → env.load_fails ≡ false
      → decide_and_persist enc env ev s ≡ ok (s, d, true)
  unfolding decide_and_persist load_decision stamp_event
  replays env ev s b d at reads works =
      rw (decide_and_persist, works) (rw (load_decision, at, reads) refl)

  -- A stored decision is returned, or a fresh one is made.
  pub path_cases :
      (env : Surroundings F) (event : Event) (s : Server F)
      → ((old : Decision F) × (decide_and_persist enc env event s ≡ ok (s, old, true)))
        ⊎ (decide_and_persist enc env event s
            ≡ fresh_decision enc env (stamp_event env.t0_ms event) s)
  unfolding decide_and_persist stamp_event
  path_cases env event s =
      elim (Loaded-cases (load_decision enc.codec env.load_fails event.end_to_end_id s.stored)) [
        | inl (old, e) ↦ inl (old, rw (decide_and_persist, e) refl)
        | inr (inl e) ↦ inr (rw (decide_and_persist, e) refl)
        | inr (inr e) ↦ inr (rw (decide_and_persist, e) refl)
      ]

  other_id-stored :
      (env : Surroundings F) (event : Event) (s s' : Server F) (d : Decision F) (r : Bool)
      (id : String)
      → str_eq event.end_to_end_id id ≡ false
      → decide_and_persist enc env event s ≡ ok (s', d, r)
      → lookup (idempotency_key id) s'.stored ≡ lookup (idempotency_key id) s.stored
  unfolding settled stamp_event
  other_id-stored env event s s' d r id other h = elim (path_cases env event s) [
    | inl (old, e) ↦
        ap (λ (x : Server F × Decision F × Bool). lookup (idempotency_key id) x.0.stored)
          (ok-eq (sym h ∙ e))
    | inr e ↦
        let ev = stamp_event env.t0_ms event in
        let (d1, done, _, persisted, same) = fresh-eq-ok env event s (s', d, r) (sym e ∙ h) in
        let (latency, settles) = persist-eq-ok env ev d1 s done persisted in
        ap (λ (x : Server F × Decision F × Bool). lookup (idempotency_key id) x.0.stored) same
        ∙ ap (λ (x : Server F × Decision F). lookup (idempotency_key id) x.0.stored) settles
        ∙ lookup-store_decision enc.codec env.store_fails event.end_to_end_id id
            (logged enc env d1 s).1 s.stored other
  ]

  run_async-stored : (i : ℕ) (s : Server F) → (run_async enc i s).stored ≡ s.stored
  unfolding run_async
  run_async-stored i s = elim (Option-cases (take_job s.jobs i)) [
    | inl e ↦ rw (run_async, e) refl
    | inr ((job, rest), e) ↦ rw (run_async, e) refl
  ]

  happen-stored :
      (h : Happening F) (s s' : Server F) (id : String) (b : Bytes) (d : Decision F)
      → Remembers id h
      → lookup (idempotency_key id) s.stored ≡ some b
      → enc.codec.unmarshal_decision b ≡ some d
      → happen h s ≡ ok s'
      → lookup (idempotency_key id) s'.stored ≡ some b
  unfolding happen
  happen-stored (request env ev) s s' id b d keeps at reads run =
      let (out, answered, ends) =
        >>=-eq-ok (decide_and_persist enc env ev s)
          (λ (done : Server F × Decision F × Bool). ok done.0) run in
      let there : lookup (idempotency_key id) out.0.stored ≡ some b =
        elim (Bool-cases (str_eq ev.end_to_end_id id)) [
          | inl e ↦
              let same : id ≡ ev.end_to_end_id = sym ((eq_iff ev.end_to_end_id id).0 e) in
              let replayed =
                replays env ev s b d (ap (λ k. lookup (idempotency_key k) s.stored) (sym same) ∙ at)
                  reads (keeps e) in
              ap (λ (x : Server F × Decision F × Bool). lookup (idempotency_key id) x.0.stored)
                (ok-eq (sym answered ∙ replayed))
              ∙ at
          | inr e ↦ other_id-stored env ev s out.0 out.1 out.2 id e answered ∙ at
        ] in
      ap (λ (x : Server F). lookup (idempotency_key id) x.stored) (sym (ok-eq ends)) ∙ there
  happen-stored (async_job i) s s' id b d keeps at reads run =
      ap (λ (x : Server F). lookup (idempotency_key id) x.stored) (sym (ok-eq run))
      ∙ ap (λ stored. lookup (idempotency_key id) stored) (run_async-stored i s)
      ∙ at
  happen-stored (expires key) s s' id b d keeps at reads run =
      ap (λ (x : Server F). lookup (idempotency_key id) x.stored) (sym (ok-eq run))
      ∙ lookup-expire key (idempotency_key id) s.stored keeps
      ∙ at

  happen_all-stored :
      (hs : List (Happening F)) (s s' : Server F) (id : String) (b : Bytes) (d : Decision F)
      → All (Remembers id) hs
      → lookup (idempotency_key id) s.stored ≡ some b
      → enc.codec.unmarshal_decision b ≡ some d
      → happen_all hs s ≡ ok s'
      → lookup (idempotency_key id) s'.stored ≡ some b
  unfolding happen_all
  happen_all-stored [] s s' id b d keeps at reads run =
      ap (λ (x : Server F). lookup (idempotency_key id) x.stored) (sym (ok-eq run)) ∙ at
  happen_all-stored (h ∷ hs) s s' id b d (keep, keeps) at reads run =
      let (s1, first, rest) = >>=-eq-ok (happen h s) (happen_all hs) run in
      happen_all-stored hs s1 s' id b d keeps (happen-stored h s s1 id b d keep at reads first)
        reads rest

  -- When a request has been decided afresh and the decision was stored as a text that reads back as
  -- `d'`, then after anything that may happen without an expiry of its key or a failed load of it,
  -- every further request with the same id is answered with `d'` as a replay, and changes nothing: no
  -- second record in the log, no second broadcast, and no second goroutine of the asynchronous lane.
  pub repeat_answers :
      (env : Surroundings F) (ev : Event) (s s1 s2 : Server F) (d d' : Decision F) (b : Bytes)
      (hs : List (Happening F)) (env2 : Surroundings F) (ev2 : Event)
      → decide_and_persist enc env ev s ≡ ok (s1, d, false)
      → env.store_fails ≡ false
      → enc.codec.marshal_decision d ≡ some b
      → enc.codec.unmarshal_decision b ≡ some d'
      → All (Remembers ev.end_to_end_id) hs
      → happen_all hs s1 ≡ ok s2
      → ev2.end_to_end_id ≡ ev.end_to_end_id
      → env2.load_fails ≡ false
      → decide_and_persist enc env2 ev2 s2 ≡ ok (s2, d', true)
  unfolding settled stamp_event
  repeat_answers env ev s s1 s2 d d' b hs env2 ev2 first works writes reads keeps run same loads =
      elim (path_cases env ev s) [
        | inl (old, e) ↦ absurd (
            let clash : true ≡ false =
              ap (λ (x : Server F × Decision F × Bool). x.2) (ok-eq (sym e ∙ first)) in
            cc)
        | inr e ↦
            let (d1, done, _, persisted, made) =
              fresh-eq-ok env ev s (s1, d, false) (sym e ∙ first) in
            let (latency, settles) =
              persist-eq-ok env (stamp_event env.t0_ms ev) d1 s done persisted in
            let final : (logged enc env d1 s).1 ≡ d =
              sym (ap (λ (x : Server F × Decision F). x.1) settles)
              ∙ sym (ap (λ (x : Server F × Decision F × Bool). x.1) made) in
            let stored : lookup (idempotency_key ev.end_to_end_id) s1.stored ≡ some b =
              ap
                (λ (x : Server F × Decision F × Bool).
                  lookup (idempotency_key ev.end_to_end_id) x.0.stored)
                made
              ∙ ap
                  (λ (x : Server F × Decision F).
                    lookup (idempotency_key ev.end_to_end_id) x.0.stored)
                  settles
              ∙ ap
                  (λ fails.
                    lookup (idempotency_key ev.end_to_end_id)
                      (store_decision enc.codec fails ev.end_to_end_id (logged enc env d1 s).1
                        s.stored).0)
                  works
              ∙ lookup-store_decision_self enc.codec ev.end_to_end_id (logged enc env d1 s).1 b
                  s.stored (ap (λ x. enc.codec.marshal_decision x) final ∙ writes) in
            let later = happen_all-stored hs s1 s2 ev.end_to_end_id b d' keeps stored reads run in
            replays env2 ev2 s2 b d' (ap (λ k. lookup (idempotency_key k) s2.stored) same ∙ later)
              reads loads
      ]
