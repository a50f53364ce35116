-- ===== src/Fanout/Delivery.antt =====
-- go/internal/fanout/hub.go: what waits in a connection's channel is delivered.
use payment_infrastructure.Base.{
  ℕ, ◌+◌, ◌≤◌, ◌≡◌, refl, sym, ap, ◌∙◌, Bool, true, false, List, [], ◌∷◌, ◌++◌, none, some,
  Bool-cases, inl, inr, arith, length, ltb, ◌==◌, if◌then◌else◌, append_assoc, append_nil, All,
}
use payment_infrastructure.Audit.{Bytes}
use payment_infrastructure.Fanout.{
  Client, Hub, HubMove, publishes, connects, leaves, delivers, beats, hub_run, find, offer,
  frame_of, heartbeat_frame, client_buffer,
}
use payment_infrastructure.Fanout.Isolation.{takes, own_step, own_run, find-hub_run}

-- A line that begins with a colon is a comment of the event stream, which its reader skips.
is_comment : Bytes → Bool
is_comment [] = false
is_comment (b ∷ bs) = b == 58

-- What the reader sees: the frames that are not comments.
unfoldable pub events_of : List Bytes → List Bytes
unfolding is_comment
events_of [] = []
events_of (frame ∷ frames) = if is_comment frame then events_of frames else frame ∷ events_of frames

events_of-append : (xs ys : List Bytes) → events_of (xs ++ ys) ≡ events_of xs ++ events_of ys
unfolding events_of
events_of-append [] ys = refl
events_of-append (x ∷ xs) ys = elim (Bool-cases (is_comment x)) [
  | inl e ↦ rw e (events_of-append xs ys)
  | inr e ↦ rw e (ap (λ zs. x ∷ zs) (events_of-append xs ys))
]

-- The move neither ends the connection nor opens it anew, and no write of it fails.
abbrev pub KeepsOpen : ℕ → HubMove → Type 0
KeepsOpen id (publishes event payload) = Unit
KeepsOpen id (connects j) = (j == id) ≡ false
KeepsOpen id (leaves j) = (j == id) ≡ false
KeepsOpen id (delivers j fails) = (j == id) ≡ true → fails ≡ false
KeepsOpen id (beats j fails) = (j == id) ≡ true → fails ≡ false

-- How often the connection takes a frame, if there is one.
unfoldable pub turns : ℕ → List HubMove → ℕ
turns id [] = 0
turns id (delivers j fails ∷ mvs) = (if j == id then 1 else 0) + turns id mvs
turns id (publishes event payload ∷ mvs) = turns id mvs
turns id (connects j ∷ mvs) = turns id mvs
turns id (leaves j ∷ mvs) = turns id mvs
turns id (beats j fails ∷ mvs) = turns id mvs

-- The reader has seen the frames `front`, and then `later`.
abbrev Served : ℕ → List HubMove → Client → List Bytes → Type 0
Served id mvs c front =
    (c' : Client) × (later : List Bytes) × (own_run id mvs (some c) ≡ some c')
    × (events_of c'.written ≡ events_of c.written ++ (events_of front ++ later))

shift :
    (written frames : List Bytes) (x : Bytes) (later : List Bytes)
    → events_of (written ++ x ∷ []) ++ (events_of frames ++ later)
      ≡ events_of written ++ (events_of (x ∷ frames) ++ later)
shift written frames x later =
    ap (λ ys. ys ++ (events_of frames ++ later)) (events_of-append written (x ∷ []))
    ∙ append_assoc (events_of written) (events_of (x ∷ [])) (events_of frames ++ later)
    ∙ ap (λ ys. events_of written ++ ys)
        (sym (append_assoc (events_of (x ∷ [])) (events_of frames) later)
          ∙ ap (λ ys. ys ++ later) (sym (events_of-append (x ∷ []) frames)))

-- A heartbeat is not seen.
beat-seen : (written : List Bytes) → events_of (written ++ heartbeat_frame ∷ []) ≡ events_of written
unfolding events_of
beat-seen written = events_of-append written (heartbeat_frame ∷ []) ∙ append_nil (events_of written)

abbrev wrote : Client → Bytes → List Bytes → Client
wrote c x queue = record { queue = queue; written = c.written ++ x ∷ [] }

-- The turn takes the first frame of `front`, or one behind it, if there is one.
turn-Served :
    (id : ℕ) (mvs : List HubMove) (c : Client) (front back : List Bytes)
    → c.queue ≡ front ++ back
    → length front ≤ 1 + turns id mvs
    → ((c2 : Client)
        → (front2 back2 : List Bytes) → c2.queue ≡ front2 ++ back2
        → length front2 ≤ turns id mvs
        → Served id mvs c2 front2)
    → (c' : Client) × (later : List Bytes) × (own_run id mvs (takes false c (front ++ back))
        ≡ some c')
      × (events_of c'.written ≡ events_of c.written ++ (events_of front ++ later))
unfolding takes events_of
turn-Served id mvs c [] [] q few ih = ih c [] [] q (omega arith)
turn-Served id mvs c [] (x ∷ back) q few ih =
    let (c', later, run, seen) = ih (wrote c x back) [] back refl (omega arith) in
    (c', events_of (x ∷ []) ++ later, run, seen ∙ shift c.written [] x later)
turn-Served id mvs c (x ∷ front) back q few ih =
    let (c', later, run, seen) = ih (wrote c x (front ++ back)) front back refl (omega arith) in
    (c', later, run, seen ∙ shift c.written front x later)

own_run-Served :
    (id : ℕ) (mvs : List HubMove) (c : Client) (front back : List Bytes)
    → All (KeepsOpen id) mvs
    → c.queue ≡ front ++ back
    → length front ≤ turns id mvs
    → Served id mvs c front
unfolding own_run own_step turns offer events_of
own_run-Served id [] c [] back kept q few = (c, [], refl, sym (append_nil _))
own_run-Served id [] c (x ∷ xs) back kept q few = absurd (omega arith)
own_run-Served id (publishes event none ∷ mvs) c front back kept q few =
    own_run-Served id mvs c front back kept.1 q few
own_run-Served id (publishes event (some payload) ∷ mvs) c front back kept q few =
    elim (Bool-cases (ltb (length c.queue) client_buffer)) [
      | inl room ↦
          let frame = frame_of event payload in
          rw room (
            own_run-Served id mvs (record c { queue = c.queue ++ frame ∷ [] }) front
              (back ++ frame ∷ []) kept.1
              (ap (λ ys. ys ++ frame ∷ []) q ∙ append_assoc front back (frame ∷ [])) few)
      | inr full ↦ rw full (own_run-Served id mvs c front back kept.1 q few)
    ]
own_run-Served id (connects j ∷ mvs) c front back kept q few =
    rw kept.0 (own_run-Served id mvs c front back kept.1 q few)
own_run-Served id (leaves j ∷ mvs) c front back kept q few =
    rw kept.0 (own_run-Served id mvs c front back kept.1 q few)
own_run-Served id (beats j true ∷ mvs) c front back kept q few = elim (Bool-cases (j == id)) [
  | inl e ↦ absurd (let h = kept.0 e in cc)
  | inr e ↦ rw e (own_run-Served id mvs c front back kept.1 q few)
]
own_run-Served id (beats j false ∷ mvs) c front back kept q few = elim (Bool-cases (j == id)) [
  | inl e ↦
      let beaten = record c { written = c.written ++ heartbeat_frame ∷ [] } in
      let (c', later, run, seen) = own_run-Served id mvs beaten front back kept.1 q few in
      rw e
        (c', later, run, seen ∙ ap (λ ys. ys ++ (events_of front ++ later)) (beat-seen c.written))
  | inr e ↦ rw e (own_run-Served id mvs c front back kept.1 q few)
]
own_run-Served id (delivers j fails ∷ mvs) c front back kept q few = elim (Bool-cases (j == id)) [
  | inl e ↦
      let fine : fails ≡ false = kept.0 e in
      let (c', later, run, seen) =
        turn-Served id mvs c front back q (ground arith)
          (λ c2 front2 back2 q2 few2. own_run-Served id mvs c2 front2 back2 kept.1 q2 few2) in
      let queued = ap (λ queue. own_run id mvs (takes fails c queue)) q in
      let unfailing = ap (λ b. own_run id mvs (takes b c (front ++ back))) fine in
      rw e (c', later, queued ∙ unfailing ∙ run, seen)
  | inr e ↦ rw e (own_run-Served id mvs c front back kept.1 q (ground arith))
]

-- In any interleaving that neither ends a connection nor fails a write of it, and that gives it at least
-- as many turns as frames wait in its channel, its reader sees all those frames, in their order, after
-- what it had seen before.
pub hub_run-Served :
    (id : ℕ) (mvs : List HubMove) (h : Hub) (c : Client)
    → find id h.clients ≡ some c
    → All (KeepsOpen id) mvs
    → length c.queue ≤ turns id mvs
    → (c' : Client) × (later : List Bytes) × (find id (hub_run mvs h).clients ≡ some c')
      × (events_of c'.written ≡ events_of c.written ++ (events_of c.queue ++ later))
hub_run-Served id mvs h c at kept few =
    let (c', later, run, seen) =
      own_run-Served id mvs c c.queue [] kept (sym (append_nil c.queue)) few in
    (c', later, find-hub_run id mvs h ∙ ap (own_run id mvs) at ∙ run, seen)
