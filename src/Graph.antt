-- ===== src/Graph.antt =====
-- go/internal/graph/engine.go: the payment graph and the ring signal. A lookup of a missing key gives an
-- empty map, which Go's nil map reads as.
pub mod Payers
pub mod Walk
use Prim.Native.Char.{code}
use payment_infrastructure.Base.{
  ℕ, zero, suc, ◌+◌, ◌*◌, Bool, true, false, String, List, [], ◌∷◌, ◌++◌, Option, none, some, Map,
  lookup, lookup_or, insert, length, ltb, leb, ◌&&◌, is_empty, ◌==◌, if◌then◌else◌,
}
use payment_infrastructure.Base.Int.{ℤ, pos, negsuc, add64, sub64, ltb_ℤ}
use payment_infrastructure.Base.Float.{Float64}

abbrev pub ring_size_cap : ℕ
ring_size_cap = 25

abbrev pub component_walk_cap : ℕ
component_walk_cap = 200

abbrev pub edge_decay_half_life_ms : ℕ
edge_decay_half_life_ms = 72 * 3600 * 1000

pub record Edge : Type 0 where
  pub last_seen_ms : ℤ
  pub count : ℤ

pub record GraphEngine : Type 0 where
  pub payee_to_payers : Map (Map Edge)
  pub payer_to_payees : Map (Map Edge)
  pub device_to_accounts : Map (Map Edge)
  pub account_to_devices : Map (Map Bool)

unfoldable pub new_graph : GraphEngine
new_graph = record {
  payee_to_payers = [];
  payer_to_payees = [];
  device_to_accounts = [];
  account_to_devices = [];
}

-- `defaultBankOf`: the text before the first dash, `none` without one.
unfoldable pub before_dash : String → Option String
before_dash String.[] = none
before_dash (String.◌∷◌ c s) =
    let rest = before_dash s in
    if code c == 45 then some "" else elim rest [ none ↦ none | some r ↦ some (String.◌∷◌ c r) ]

unfoldable pub default_bank_of : String → String
unfolding before_dash
default_bank_of acct = elim (before_dash acct) [ none ↦ "UNKNOWN" | some bank ↦ bank ]

-- The edge after one more payment.
unfoldable pub seen_again : ℤ → Option Edge → Edge
seen_again at_ms none = record { last_seen_ms = at_ms; count = add64 (pos 0) (pos 1) }
seen_again at_ms (some e) = record { last_seen_ms = at_ms; count = add64 e.count (pos 1) }

unfoldable pub add_edge : (from to : String) → ℤ → Map (Map Edge) → Map (Map Edge)
unfolding seen_again
add_edge from to at_ms m =
    let edges = lookup_or [] from m in
    insert from (insert to (seen_again at_ms (lookup to edges)) edges) m

unfoldable pub on_event : (payer payee device_id : String) → ℤ → GraphEngine → GraphEngine
on_event payer payee device_id at_ms g =
    let g1 = record g {
      payee_to_payers = add_edge payee payer at_ms g.payee_to_payers;
      payer_to_payees = add_edge payer payee at_ms g.payer_to_payees;
    } in
    if is_empty device_id then g1 else record g1 {
      device_to_accounts = add_edge device_id payer at_ms g.device_to_accounts;
      account_to_devices =
          insert payer (insert device_id true (lookup_or [] payer g.account_to_devices))
            g.account_to_devices;
    }

unfoldable pub within_decay_window : (last_seen_ms now_ms : ℤ) → Bool
within_decay_window last_seen_ms now_ms =
    ltb_ℤ (sub64 now_ms last_seen_ms) (pos (6 * edge_decay_half_life_ms))

-- The loop over the edges out of an account: `next` and `newest` at its end.
unfoldable pub newest_edge : ℤ → Map Bool → Map Edge → String × ℤ → String × ℤ
newest_edge now_ms visited [] best = best
newest_edge now_ms visited ((to, e) ∷ outs) (next, newest) = newest_edge now_ms visited outs (
    if lookup_or false to visited
    then (next, newest)
    else if ltb_ℤ newest e.last_seen_ms && within_decay_window e.last_seen_ms now_ms
    then (to, e.last_seen_ms)
    else (next, newest))

-- The loop of cashoutDepth, with the hops that are left.
unfoldable pub walk_from :
    Map (Map Edge) → ℤ → (hops_left : ℕ) → String → Map Bool → (depth : ℕ) → ℕ
walk_from edges now_ms zero cur visited depth = depth
walk_from edges now_ms (suc n) cur visited depth =
    let next = (newest_edge now_ms visited (lookup_or [] cur edges) ("", negsuc 0)).0 in
    let visited' = insert next true visited in
    let rest = walk_from edges now_ms n next visited' (suc depth) in
    if is_empty next
    then depth
    else if ltb component_walk_cap (length visited')
    then suc depth
    else rest

unfoldable pub cashout_depth : String → ℤ → (max_hops : ℕ) → GraphEngine → ℕ
unfolding walk_from
cashout_depth start now_ms max_hops g =
    walk_from g.payer_to_payees now_ms max_hops start ((start, true) ∷ []) 0

-- One payer's devices counted in.
unfoldable pub count_devices : Map Bool → Map ℕ → Map ℕ
count_devices [] counts = counts
count_devices ((d, _) ∷ ds) counts = count_devices ds (insert d (suc (lookup_or 0 d counts)) counts)

unfoldable pub count_all_devices : GraphEngine → Map Edge → Map ℕ → Map ℕ
count_all_devices g [] counts = counts
count_all_devices g ((payer, _) ∷ payers) counts =
    count_all_devices g payers (count_devices (lookup_or [] payer g.account_to_devices) counts)

unfoldable pub shared_degree : Map ℕ → ℕ
shared_degree [] = 0
shared_degree ((_, c) ∷ counts) =
    let rest = shared_degree counts in if leb 2 c then c + rest else rest

unfoldable pub banks_of : Map Edge → Map Bool → Map Bool
unfolding default_bank_of
banks_of [] banks = banks
banks_of ((payer, _) ∷ payers) banks = banks_of payers (insert (default_bank_of payer) true banks)

pub record RingResult (F : Type 0) : Type 0 where
  pub ring_score : F
  pub ring_size : ℕ
  pub component_bank_count : ℕ
  pub hops_to_cashout : ℕ
  pub device_shared_degree : ℕ

module _ {F : Type 0} ⦃f : Float64 F⦄ where
  unfoldable pub clamp01 : F → F
  clamp01 v =
      if f.lt v (f.of_int (pos 0))
      then f.of_int (pos 0)
      else if f.lt (f.of_int (pos 1)) v
      then f.of_int (pos 1)
      else v

  -- `base` after the three tests.
  unfoldable pub ring_base : (num_payers shared hops : ℕ) → F
  ring_base num_payers shared hops =
      let base =
        if leb 3 num_payers then f.plus (f.of_int (pos 0)) (f.decimal 25 2) else f.of_int (pos 0) in
      let base1 =
        if ltb 0 shared
        then f.plus base (
            f.times (f.decimal 45 2)
              (clamp01 (f.over (f.of_int (pos shared)) (f.of_int (pos num_payers)))))
        else base in
      if leb 1 hops
      then f.plus base1
          (f.times (f.decimal 3 1) (clamp01 (f.over (f.of_int (pos hops)) (f.of_int (pos 3)))))
      else base1

  unfoldable pub evaluate : String → ℤ → GraphEngine → RingResult F
  unfolding count_all_devices shared_degree banks_of cashout_depth
  evaluate payee now_ms g =
      let payers = lookup_or [] payee g.payee_to_payers in
      let num_payers = length payers in
      let shared = shared_degree (count_all_devices g payers []) in
      let hops = cashout_depth payee now_ms 5 g in
      let nought = f.of_int (pos 0) in
      let size_only : RingResult F = record {
        ring_score = nought;
        ring_size = num_payers;
        component_bank_count = 0;
        hops_to_cashout = 0;
        device_shared_degree = 0;
      } in
      if num_payers == 0
      then record size_only { ring_size = 0 }
      else if ltb ring_size_cap num_payers
      then size_only
      else record {
        ring_score = clamp01 (ring_base num_payers shared hops);
        ring_size = num_payers;
        component_bank_count = length (banks_of payers []);
        hops_to_cashout = hops;
        device_shared_degree = shared;
      }
