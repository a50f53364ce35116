-- ===== src/Fanout/Bounded.antt =====
-- go/internal/fanout/hub.go: what a connection promises, with the bound of its channel.
use payment_infrastructure.Base.{
  ℕ, ◌≤◌, ◌≡◌, refl, sym, ap, subst, ◌∙◌, Bool, true, false, Bool-cases, inl, inr, List, [], ◌∷◌,
  ◌++◌, Option, none, some, length, length-take, take, take-few, take-whole, length-append, arith,
  ltb, ◌==◌,
}
use payment_infrastructure.Audit.{Bytes}
use payment_infrastructure.Fanout.{
  Client, Hub, HubMove, publishes, connects, leaves, delivers, beats, hub_run, find, client_buffer,
  offer, frame_of,
}
use payment_infrastructure.Fanout.Isolation.{own_step, own_run, takes, find-hub_run}

-- What a broadcast means for a connection: the first 32 of what waits and the frame.
abbrev kept : Bytes → Client → Client
kept frame c = record c { queue = take client_buffer (c.queue ++ frame ∷ []) }

unfoldable pub promised_step : ℕ → HubMove → Option Client → Option Client
promised_step id (publishes event none) o = o
promised_step id (publishes event (some payload)) none = none
promised_step id (publishes event (some payload)) (some c) = some (kept (frame_of event payload) c)
promised_step id (connects j) o = own_step id (connects j) o
promised_step id (leaves j) o = own_step id (leaves j) o
promised_step id (delivers j fails) o = own_step id (delivers j fails) o
promised_step id (beats j fails) o = own_step id (beats j fails) o

unfoldable pub promised_run : ℕ → List HubMove → Option Client → Option Client
unfolding promised_step
promised_run id [] o = o
promised_run id (mv ∷ mvs) o = promised_run id mvs (promised_step id mv o)

abbrev pub IsBounded : Option Client → Type 0
IsBounded none = Unit
IsBounded (some c) = length c.queue ≤ client_buffer

-- Within its bound a channel keeps what it is offered, as far as there is room.
offer-kept :
    (frame : Bytes) (c : Client) → length c.queue ≤ client_buffer → offer frame c ≡ kept frame c
unfolding offer
offer-kept frame c bounded = elim (Bool-cases (ltb (length c.queue) client_buffer)) [
  | inl room ↦ rw room (
      ap (λ q. record c { queue = q })
        (sym (
          take-few client_buffer (c.queue ++ frame ∷ [])
            (let longer = length-append c.queue (frame ∷ []) in ground arith))))
  | inr full ↦
      let size : length c.queue ≡ client_buffer = ground arith in
      rw full (
        ap (λ q. record c { queue = q })
          (sym (take-whole c.queue (frame ∷ [])) ∙ ap (λ n. take n (c.queue ++ frame ∷ [])) size))
]

promised-own :
    (id : ℕ) (mv : HubMove) (o : Option Client)
    → IsBounded o
    → promised_step id mv o ≡ own_step id mv o
unfolding promised_step own_step
promised-own id (publishes event none) o b = refl
promised-own id (publishes event (some payload)) none b = refl
promised-own id (publishes event (some payload)) (some c) b =
    ap some (sym (offer-kept (frame_of event payload) c b))
promised-own id (connects j) o b = refl
promised-own id (leaves j) o b = refl
promised-own id (delivers j fails) o b = refl
promised-own id (beats j fails) o b = refl

takes-IsBounded :
    (fails : Bool) (c : Client) (q : List Bytes)
    → length c.queue ≤ client_buffer
    → length q ≤ client_buffer
    → IsBounded (takes fails c q)
unfolding takes
takes-IsBounded fails c [] b few = b
takes-IsBounded true c (frame ∷ q) b few = tt
takes-IsBounded false c (frame ∷ q) b few = omega (arith, few)

own_step-IsBounded :
    (id : ℕ) (mv : HubMove) (o : Option Client) → IsBounded o → IsBounded (own_step id mv o)
unfolding own_step
own_step-IsBounded id (publishes event none) o b = b
own_step-IsBounded id (publishes event (some payload)) none b = tt
own_step-IsBounded id (publishes event (some payload)) (some c) b =
    subst (λ x. length x.queue ≤ client_buffer) (sym (offer-kept (frame_of event payload) c b))
      (length-take client_buffer (c.queue ++ frame_of event payload ∷ []))
own_step-IsBounded id (connects j) o b = elim (Bool-cases (j == id)) [
  | inl e ↦ rw e (omega arith)
  | inr e ↦ rw e b
]
own_step-IsBounded id (leaves j) o b = elim (Bool-cases (j == id)) [
  | inl e ↦ rw e tt
  | inr e ↦ rw e b
]
own_step-IsBounded id (delivers j fails) none b = tt
own_step-IsBounded id (delivers j fails) (some c) b = elim (Bool-cases (j == id)) [
  | inl e ↦ rw e (takes-IsBounded fails c c.queue b b)
  | inr e ↦ rw e b
]
own_step-IsBounded id (beats j fails) none b = tt
own_step-IsBounded id (beats j true) (some c) b = elim (Bool-cases (j == id)) [
  | inl e ↦ rw e tt
  | inr e ↦ rw e b
]
own_step-IsBounded id (beats j false) (some c) b = elim (Bool-cases (j == id)) [
  | inl e ↦ rw e b
  | inr e ↦ rw e b
]

own_run-promised :
    (id : ℕ) (mvs : List HubMove) (o : Option Client)
    → IsBounded o
    → (own_run id mvs o ≡ promised_run id mvs o) × IsBounded (own_run id mvs o)
unfolding own_run promised_run
own_run-promised id [] o b = (refl, b)
own_run-promised id (mv ∷ mvs) o b =
    let (same, later) = own_run-promised id mvs (own_step id mv o) (own_step-IsBounded id mv o b) in
    (same ∙ ap (promised_run id mvs) (sym (promised-own id mv o b)), later)

-- In any interleaving of broadcasts, connections, deliveries, heartbeats and write errors, a connection
-- whose channel is within its bound is what it would be alone, whatever the other connections do: a
-- broadcast leaves the first 32 of what waits and the new frame, and the bound is kept.
pub hub_run-IsBounded :
    (id : ℕ) (mvs : List HubMove) (h : Hub)
    → IsBounded (find id h.clients)
    → (find id (hub_run mvs h).clients ≡ promised_run id mvs (find id h.clients))
      × IsBounded (find id (hub_run mvs h).clients)
hub_run-IsBounded id mvs h b =
    let (same, later) = own_run-promised id mvs (find id h.clients) b in
    (find-hub_run id mvs h ∙ same, subst IsBounded (sym (find-hub_run id mvs h)) later)
