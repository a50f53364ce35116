-- ===== src/Fanout/Isolation.antt =====
-- go/internal/fanout/hub.go: each connection is a bounded queue of its own.
use payment_infrastructure.Base.{
  ℕ, ◌≡◌, refl, sym, ap, ◌∙◌, Bool, true, false, List, [], ◌∷◌, ◌++◌, Option, none, some,
  none-ne-some, some-eq, Option-cases, Bool-cases, inl, inr, arith, ◌==◌, if◌then◌else◌,
}
use payment_infrastructure.Audit.{Bytes}
use payment_infrastructure.Fanout.{
  Client, Hub, HubMove, publishes, connects, leaves, delivers, beats, hub_step, hub_run, find,
  offer, offer_all, remove, write_frame, deliver_from, frame_of, heartbeat_frame,
}

-- What a connection promises, by itself: a bounded queue of frames and the frames written.
unfoldable pub takes : (fails : Bool) → Client → List Bytes → Option Client
takes fails c [] = some c
takes true c (frame ∷ queue) = none
takes false c (frame ∷ queue) = some (record { queue = queue; written = c.written ++ frame ∷ [] })

unfoldable pub own_step : ℕ → HubMove → Option Client → Option Client
unfolding takes
own_step id (publishes event none) o = o
own_step id (publishes event (some payload)) none = none
own_step id (publishes event (some payload)) (some c) = some (offer (frame_of event payload) c)
own_step id (connects j) o = if j == id then some (record { queue = []; written = [] }) else o
own_step id (leaves j) o = if j == id then none else o
own_step id (delivers j fails) none = none
own_step id (delivers j fails) (some c) = if j == id then takes fails c c.queue else some c
own_step id (beats j fails) none = none
own_step id (beats j true) (some c) = if j == id then none else some c
own_step id (beats j false) (some c) =
    if j == id then some (record c { written = c.written ++ heartbeat_frame ∷ [] }) else some c

unfoldable pub own_run : ℕ → List HubMove → Option Client → Option Client
unfolding own_step
own_run id [] o = o
own_run id (mv ∷ mvs) o = own_run id mvs (own_step id mv o)

find-remove :
    (id j : ℕ) (cs : List (ℕ × Client))
    → find id (remove j cs) ≡ (if j == id then none else find id cs)
unfolding find remove
find-remove id j [] = ground arith
find-remove id j (entry ∷ rest) = ground (arith, find-remove id j rest)

find-offer_all :
    (id : ℕ) (frame : Bytes) (cs : List (ℕ × Client))
    → find id (offer_all frame cs)
      ≡ elim (find id cs) as (λ _. Option Client) [ none ↦ none | some c ↦ some (offer frame c) ]
unfolding find
find-offer_all id frame [] = refl
find-offer_all id frame (entry ∷ rest) = elim (Bool-cases (entry.0 == id)) [
  | inl e ↦ rw e refl
  | inr e ↦ rw e (find-offer_all id frame rest)
]

find-insert :
    (id j : ℕ) (c : Client) (cs : List (ℕ × Client))
    → find id ((j, c) ∷ remove j cs) ≡ (if j == id then some c else find id cs)
unfolding find
find-insert id j c cs = ground (arith, find-remove id j cs)

-- A write on a channel, and what it leaves on each channel.
abbrev wrote : (fails : Bool) → Bytes → Client → Option Client
wrote true frame c = none
wrote false frame c = some (record c { written = c.written ++ frame ∷ [] })

find-write_frame :
    (id j : ℕ) (frame : Bytes) (fails : Bool) (c : Client) (h : Hub)
    → find id (write_frame j frame fails c h).clients
      ≡ (if j == id then wrote fails frame c else find id h.clients)
unfolding write_frame
find-write_frame id j frame true c h = find-remove id j h.clients
find-write_frame id j frame false c h = find-insert id j _ h.clients

find-deliver_from :
    (id j : ℕ) (fails : Bool) (c : Client) (queue : List Bytes) (h : Hub)
    → find j h.clients ≡ some c
    → find id (deliver_from j fails c queue h).clients
      ≡ (if j == id then takes fails c queue else find id h.clients)
unfolding deliver_from takes
find-deliver_from id j fails c [] h at = elim (Bool-cases (j == id)) [
  | inl e ↦ let same : j ≡ id = ground arith in rw e (ap (λ k. find k h.clients) (sym same) ∙ at)
  | inr e ↦ rw e refl
]
find-deliver_from id j true c (frame ∷ queue) h at =
    find-write_frame id j frame true (record c { queue = queue }) h
find-deliver_from id j false c (frame ∷ queue) h at =
    find-write_frame id j frame false (record c { queue = queue }) h

-- What a turn of the connection `j` means for `id`, in terms of what stands at `j`.
own-deliver :
    (id j : ℕ) (fails : Bool) (o : Option Client) (c : Client)
    → (j ≡ id → o ≡ some c)
    → own_step id (delivers j fails) o ≡ (if j == id then takes fails c c.queue else o)
unfolding own_step
own-deliver id j fails none c at = elim (Bool-cases (j == id)) [
  | inl e ↦ absurd (none-ne-some (at (ground arith)))
  | inr e ↦ rw e refl
]
own-deliver id j fails (some d) c at = elim (Bool-cases (j == id)) [
  | inl e ↦
      let same : d ≡ c = some-eq (at (ground arith)) in rw e (ap (λ x. takes fails x x.queue) same)
  | inr e ↦ rw e refl
]

own-beat :
    (id j : ℕ) (fails : Bool) (o : Option Client) (c : Client)
    → (j ≡ id → o ≡ some c)
    → own_step id (beats j fails) o ≡ (if j == id then wrote fails heartbeat_frame c else o)
unfolding own_step
own-beat id j fails none c at = elim (Bool-cases (j == id)) [
  | inl e ↦ absurd (none-ne-some (at (ground arith)))
  | inr e ↦ rw e refl
]
own-beat id j true (some d) c at = refl
own-beat id j false (some d) c at = elim (Bool-cases (j == id)) [
  | inl e ↦
      let same : d ≡ c = some-eq (at (ground arith)) in rw e (ap (wrote false heartbeat_frame) same)
  | inr e ↦ rw e refl
]

own_none :
    (id j : ℕ) (fails : Bool) (o : Option Client)
    → (j ≡ id → o ≡ none)
    → (own_step id (delivers j fails) o ≡ o) × (own_step id (beats j fails) o ≡ o)
unfolding own_step
own_none id j fails none at = (refl, refl)
own_none id j true (some c) at = elim (Bool-cases (j == id)) [
  | inl e ↦ absurd (none-ne-some (sym (at (ground arith))))
  | inr e ↦ rw e (refl, refl)
]
own_none id j false (some c) at = elim (Bool-cases (j == id)) [
  | inl e ↦ absurd (none-ne-some (sym (at (ground arith))))
  | inr e ↦ rw e (refl, refl)
]

find-hub_step :
    (id : ℕ) (mv : HubMove) (h : Hub)
    → find id (hub_step mv h).clients ≡ own_step id mv (find id h.clients)
unfolding hub_step own_step
find-hub_step id (publishes event none) h = refl
find-hub_step id (publishes event (some payload)) h = elim (Option-cases (find id h.clients)) [
  | inl e ↦ find-offer_all id (frame_of event payload) h.clients ∙ rw e refl
  | inr (c, e) ↦ find-offer_all id (frame_of event payload) h.clients ∙ rw e refl
]
find-hub_step id (connects j) h = find-insert id j _ h.clients
find-hub_step id (leaves j) h = find-remove id j h.clients
find-hub_step id (delivers j fails) h = elim (Option-cases (find j h.clients)) [
  | inl e ↦
      rw (hub_step, e)
        (sym
          (own_none id j fails (find id h.clients)
            (λ same. ap (λ k. find k h.clients) (sym same) ∙ e)).0)
  | inr (c, e) ↦
      rw (hub_step, e)
        (find-deliver_from id j fails c c.queue h e
          ∙ sym (
              own-deliver id j fails (find id h.clients) c
                (λ same. ap (λ k. find k h.clients) (sym same) ∙ e)))
]
find-hub_step id (beats j fails) h = elim (Option-cases (find j h.clients)) [
  | inl e ↦
      rw (hub_step, e)
        (sym
          (own_none id j fails (find id h.clients)
            (λ same. ap (λ k. find k h.clients) (sym same) ∙ e)).1)
  | inr (c, e) ↦
      rw (hub_step, e)
        (find-write_frame id j heartbeat_frame fails c h
          ∙ sym (
              own-beat id j fails (find id h.clients) c
                (λ same. ap (λ k. find k h.clients) (sym same) ∙ e)))
]

-- In any interleaving of broadcasts, connections, deliveries, heartbeats and write errors, a connection
-- is what it would be alone: a queue of at most 32 frames that drops a frame only when it is full itself,
-- whatever the other connections do.
pub find-hub_run :
    (id : ℕ) (mvs : List HubMove) (h : Hub)
    → find id (hub_run mvs h).clients ≡ own_run id mvs (find id h.clients)
unfolding hub_run own_run
find-hub_run id [] h = refl
find-hub_run id (mv ∷ mvs) h =
    find-hub_run id mvs (hub_step mv h) ∙ ap (own_run id mvs) (find-hub_step id mv h)
