-- ===== src/Persist/Shipper/Order.antt =====
-- go/internal/persist/shipper.go: what holds in every interleaving of Enqueue and Run.
use payment_infrastructure.Base.{
  ℕ, zero, suc, ◌+◌, ◌≤◌, ◌≡◌, refl, sym, ap, subst, ◌∙◌, List, [], ◌∷◌, ◌++◌, Option, none, some,
  arith, length, length-append, append_assoc, ltb, ltb→lt, Bool-cases, inl, inr,
}
use payment_infrastructure.Base.Int.{pos, negsuc, ◌+ℤ◌, sub_ℕ, wrap64, add64, add64-wrap64}
use payment_infrastructure.Persist.Shipper.{
  Worker, selecting, received, emitting, stopped, Shipper, Move, offer, count_in, receive,
  count_out, emit, cancel, Effect, accepts, sheds, emits, silent, new_shipper, enqueue, count,
  take_next, run_count, run_emit, run_cancel, step,
}

-- The decisions accepted, shed and emitted so far, each in order.
pub record Log (D : Type 0) : Type 0 where
  pub accepted : List D
  pub shed : List D
  pub emitted : List D

pos_suc : (n : ℕ) → pos n +ℤ pos 1 ≡ pos (n + 1)
unfolding ◌+ℤ◌
pos_suc n = ground arith

wrap_zero : pos 0 ≡ wrap64 (pos 0)
unfolding wrap64
wrap_zero = refl

sub_ℕ-suc : (a h b : ℕ) → sub_ℕ (a + h) b ≡ sub_ℕ (a + 1 + h) (suc b)
sub_ℕ-suc a h b = ground arith

add_sub_ℕ : (a b : ℕ) → sub_ℕ a (suc b) +ℤ pos 1 ≡ sub_ℕ a b
unfolding ◌+ℤ◌
add_sub_ℕ a b = ground arith

sub_sub_ℕ : (a b : ℕ) → sub_ℕ (a + 1) b +ℤ negsuc 0 ≡ sub_ℕ (a + 0) b
unfolding ◌+ℤ◌
sub_sub_ℕ a b = ground arith

module _ {D : Type 0} where
  abbrev pub note : Effect D → Log D → Log D
  note (accepts d) l = record l { accepted = l.accepted ++ d ∷ [] }
  note (sheds d) l = record l { shed = l.shed ++ d ∷ [] }
  note (emits d) l = record l { emitted = l.emitted ++ d ∷ [] }
  note silent l = l

  -- The states that moves lead to, and what happened on the way.
  pub data Reaches (buffer_size : ℕ) : Log D → Shipper D → Type 0 where
    start :
        Reaches buffer_size
          (record { accepted = []; shed = []; emitted = [] })
          (new_shipper buffer_size)
    move :
        (m : Move D) {l : Log D} {s t : Shipper D} {fx : Effect D}
        → Reaches buffer_size l s
        → step m s ≡ some (t, fx)
        → Reaches buffer_size (note fx l) t

  -- What the worker has taken from the queue, and not yet given to the sink.
  abbrev pub in_hand : Worker D → List D
  in_hand selecting = []
  in_hand (received d) = d ∷ []
  in_hand (emitting d) = d ∷ []
  in_hand stopped = []

  -- Taken from the queue, and still counted in the depth.
  abbrev pub held : Worker D → ℕ
  held (received d) = 1
  held _ = 0

  pub record IsConsistent (buffer_size : ℕ) (l : Log D) (s : Shipper D) : Type 0 where
    pub in_order : l.accepted ≡ l.emitted ++ (in_hand s.worker ++ s.queue)
    pub bounded : length s.queue ≤ s.capacity
    pub fixed : s.capacity ≡ buffer_size
    pub depth : s.queue_depth ≡ wrap64 (sub_ℕ (length s.queue + held s.worker) s.uncounted)
    pub shed_total : s.async_shed_total ≡ wrap64 (pos (length l.shed))

  module _ (buffer_size : ℕ) (l : Log D) where
    -- What a move leads to is consistent, if it can be made.
    abbrev Keeps : Option (Shipper D × Effect D) → Type 0
    Keeps none = Unit
    Keeps (some (t, fx)) = IsConsistent buffer_size (note fx l) t

    enqueue-Keeps :
        (d : D) (s : Shipper D) → IsConsistent buffer_size l s → Keeps (some (enqueue d s))
    unfolding enqueue
    enqueue-Keeps d s is = elim (Bool-cases (ltb (length s.queue) s.capacity)) [
      | inl room ↦ rw room (record {
        in_order =
            ap (λ xs. xs ++ d ∷ []) is.in_order
            ∙ append_assoc l.emitted (in_hand s.worker ++ s.queue) (d ∷ [])
            ∙ ap (λ xs. l.emitted ++ xs) (append_assoc (in_hand s.worker) s.queue (d ∷ []));
        bounded = omega (arith, ltb→lt _ _ room, length-append s.queue (d ∷ []));
        fixed = is.fixed;
        depth =
            is.depth
            ∙ ap wrap64 (
                sub_ℕ-suc (length s.queue) (held s.worker) s.uncounted
                ∙ ap (λ n. sub_ℕ (n + held s.worker) (suc s.uncounted))
                    (sym (length-append s.queue (d ∷ []))));
        shed_total = is.shed_total;
      })
      | inr full ↦ rw full (record {
        in_order = is.in_order;
        bounded = is.bounded;
        fixed = is.fixed;
        depth = is.depth;
        shed_total =
            ap (λ x. add64 x (pos 1)) is.shed_total
            ∙ add64-wrap64 (pos (length l.shed)) (pos 1)
            ∙ ap wrap64 (pos_suc (length l.shed) ∙ ap pos (sym (length-append l.shed (d ∷ []))));
      })
    ]

    count-Keeps :
        (s : Shipper D) (n : ℕ) → s.uncounted ≡ n → IsConsistent buffer_size l s → Keeps (count s n)
    unfolding count
    count-Keeps s zero e is = tt
    count-Keeps s (suc n) e is = record {
      in_order = is.in_order;
      bounded = is.bounded;
      fixed = is.fixed;
      depth =
          ap (λ x. add64 x (pos 1)) is.depth
          ∙ ap (λ k. add64 (wrap64 (sub_ℕ (length s.queue + held s.worker) k)) (pos 1)) e
          ∙ add64-wrap64 (sub_ℕ (length s.queue + held s.worker) (suc n)) (pos 1)
          ∙ ap wrap64 (add_sub_ℕ (length s.queue + held s.worker) n);
      shed_total = is.shed_total;
    }

    take-Keeps :
        (s : Shipper D) (w : Worker D) (q : List D)
        → s.worker ≡ w
        → s.queue ≡ q
        → IsConsistent buffer_size l s
        → Keeps (take_next s w q)
    unfolding take_next
    take-Keeps s selecting [] e f is = tt
    take-Keeps s (received _) q e f is = tt
    take-Keeps s (emitting _) q e f is = tt
    take-Keeps s stopped q e f is = tt
    take-Keeps s selecting (d ∷ q) e f is =
        let taken : length (d ∷ q) + 0 ≡ length q + 1 = omega arith in
        record {
          in_order = is.in_order ∙ rw (e, f) refl;
          bounded = omega (arith, is.bounded, ap length f);
          fixed = is.fixed;
          depth = is.depth ∙ rw (e, f) (ap (λ n. wrap64 (sub_ℕ n s.uncounted)) taken);
          shed_total = is.shed_total;
        }

    run_count-Keeps :
        (s : Shipper D) (w : Worker D)
        → s.worker ≡ w
        → IsConsistent buffer_size l s
        → Keeps (run_count s w)
    unfolding run_count
    run_count-Keeps s selecting e is = tt
    run_count-Keeps s (emitting _) e is = tt
    run_count-Keeps s stopped e is = tt
    run_count-Keeps s (received d) e is = record {
      in_order = is.in_order ∙ rw e refl;
      bounded = is.bounded;
      fixed = is.fixed;
      depth =
          ap (λ x. add64 x (negsuc 0)) is.depth
          ∙ rw e (
              add64-wrap64 (sub_ℕ (length s.queue + 1) s.uncounted) (negsuc 0)
              ∙ ap wrap64 (sub_sub_ℕ (length s.queue) s.uncounted));
      shed_total = is.shed_total;
    }

    run_emit-Keeps :
        (s : Shipper D) (w : Worker D)
        → s.worker ≡ w
        → IsConsistent buffer_size l s
        → Keeps (run_emit s w)
    unfolding run_emit
    run_emit-Keeps s selecting e is = tt
    run_emit-Keeps s (received _) e is = tt
    run_emit-Keeps s stopped e is = tt
    run_emit-Keeps s (emitting d) e is = record {
      in_order = is.in_order ∙ rw e (sym (append_assoc l.emitted (d ∷ []) s.queue));
      bounded = is.bounded;
      fixed = is.fixed;
      depth = is.depth ∙ rw e refl;
      shed_total = is.shed_total;
    }

    run_cancel-Keeps :
        (s : Shipper D) (w : Worker D)
        → s.worker ≡ w
        → IsConsistent buffer_size l s
        → Keeps (run_cancel s w)
    unfolding run_cancel
    run_cancel-Keeps s (received _) e is = tt
    run_cancel-Keeps s (emitting _) e is = tt
    run_cancel-Keeps s stopped e is = tt
    run_cancel-Keeps s selecting e is = record {
      in_order = is.in_order ∙ rw e refl;
      bounded = is.bounded;
      fixed = is.fixed;
      depth = is.depth ∙ rw e refl;
      shed_total = is.shed_total;
    }

    step-Keeps : (m : Move D) (s : Shipper D) → IsConsistent buffer_size l s → Keeps (step m s)
    unfolding step
    step-Keeps (offer d) s is = enqueue-Keeps d s is
    step-Keeps count_in s is = count-Keeps s s.uncounted refl is
    step-Keeps receive s is = take-Keeps s s.worker s.queue refl refl is
    step-Keeps count_out s is = run_count-Keeps s s.worker refl is
    step-Keeps emit s is = run_emit-Keeps s s.worker refl is
    step-Keeps cancel s is = run_cancel-Keeps s s.worker refl is

  -- In every interleaving of Enqueue and Run: what was accepted is what was given to the sink, then
  -- what Run holds, then the queue, in that order; the queue fits in the buffer; the depth counter is
  -- the length of the queue, and what Run has not counted out, less what was not counted in; and the
  -- shed counter is the number of decisions shed. The counters are int64, with their wrap-around.
  pub Reaches-IsConsistent :
      {buffer_size : ℕ} {l : Log D} {s : Shipper D}
      → Reaches buffer_size l s
      → IsConsistent buffer_size l s
  unfolding new_shipper
  Reaches-IsConsistent start = record {
    in_order = refl;
    bounded = omega arith;
    fixed = refl;
    depth = wrap_zero;
    shed_total = wrap_zero;
  }
  Reaches-IsConsistent (move m {l} {s} {t} {fx} before e) =
      subst (Keeps _ l) e (step-Keeps _ l m s (Reaches-IsConsistent before))
