-- ===== src/Features/Channel.antt =====
-- go/internal/features/compute.go: computeChannelFeatures.
use Prim.Native.Char.{code}
use payment_infrastructure.Base.{
  Bool, false, not, ◌&&◌, ◌||◌, String, List, [], ◌∷◌, Option, none, some, lookup_or, str_eq, ◌==◌,
  if◌then◌else◌,
}
use payment_infrastructure.Base.Int.{ℤ, pos, sub64, eqb_ℤ}
use payment_infrastructure.Base.Float.{Float64}
use payment_infrastructure.Contract.Event.{Event}
use payment_infrastructure.Contract.Feature.{
  FeatureVector, set_feature, mark_not_evaluated, mark_not_applicable,
}
use payment_infrastructure.Contract.Profile.{ProfileBundle, PayerBundle, DeviceBundle, AsnBundle}
use payment_infrastructure.Features.Numbers.{Math}
use payment_infrastructure.Features.Counterparty.{bool_f}

-- `payer.KnownASNs[asn]`
unfoldable pub known_asn : List (ℤ × Bool) → ℤ → Bool
known_asn [] asn = false
known_asn ((a, known) ∷ rest) asn = if eqb_ℤ a asn then known else known_asn rest asn

-- `strings.Split(cell, ":")`: the part before the first colon, and the other parts.
unfoldable pub split_colon : String → String × List String
split_colon String.[] = ("", [])
split_colon (String.◌∷◌ c s) =
    let (part, parts) = split_colon s in
    if code c == 58 then ("", part ∷ parts) else (String.◌∷◌ c part, parts)

module _ {F : Type 0} ⦃f : Float64 F⦄ ⦃m : Math F⦄ where
  -- Two parts that are both numbers.
  unfoldable pub parse_geo_cell : String → Option (F × F)
  unfolding split_colon
  parse_geo_cell cell = pair_of (split_colon cell)
    where
      pair_of : String × List String → Option (F × F)
      pair_of (lat, lon ∷ []) = elim (m.parse_float lat) [
        | none ↦ none
        | some la ↦ elim (m.parse_float lon) [ none ↦ none | some lo ↦ some (la, lo) ]
      ]
      pair_of _ = none

  unfoldable pub haversine_km : F × F → F × F → F
  haversine_km (lat1, lon1) (lat2, lon2) =
      let two = f.of_int (pos 2) in
      let to_rad = λ (d : F). f.over (f.times d m.pi) (f.of_int (pos 180)) in
      let d_lat = to_rad (f.minus lat2 lat1) in
      let d_lon = to_rad (f.minus lon2 lon1) in
      let a = f.plus (f.times (m.sin (f.over d_lat two)) (m.sin (f.over d_lat two))) (
        f.times
          (f.times (f.times (m.cos (to_rad lat1)) (m.cos (to_rad lat2))) (m.sin (f.over d_lon two)))
          (m.sin (f.over d_lon two))) in
      let c = f.times two (m.atan2 (m.sqrt a) (m.sqrt (f.minus (f.of_int (pos 1)) a))) in
      f.times (f.of_int (pos 6371)) c

  unfoldable pub device_features :
      PayerBundle F → DeviceBundle → Event → (now_ms : ℤ) → FeatureVector F → FeatureVector F
  device_features payer device ev now_ms fv =
      if str_eq ev.device_id ""
      then mark_not_applicable "device_acct_degree_24h" "NO_DEVICE_ID" (
          mark_not_applicable "device_first_seen_hours" "NO_DEVICE_ID"
            (mark_not_applicable "device_is_new_to_payer" "NO_DEVICE_ID" fv))
      else if not device.present || device.degraded
      then mark_not_evaluated "device_acct_degree_24h" "PROFILE_DEGRADED" (
          mark_not_evaluated "device_first_seen_hours" "PROFILE_DEGRADED"
            (mark_not_evaluated "device_is_new_to_payer" "PROFILE_DEGRADED" fv))
      else let is_new = payer.present && not (lookup_or false ev.device_id payer.known_devices) in
        let fv1 = set_feature "device_is_new_to_payer" (bool_f is_new) fv in
        set_feature "device_acct_degree_24h" (f.of_int device.acct_degree_24h) (
          if eqb_ℤ device.first_seen_at_ms (pos 0)
          then mark_not_evaluated "device_first_seen_hours" "COLD_START" fv1
          else set_feature "device_first_seen_hours"
              (f.over (f.of_int (sub64 now_ms device.first_seen_at_ms)) (f.of_int (pos 3_600_000)))
              fv1)

  unfoldable pub asn_features :
      PayerBundle F → AsnBundle → Event → FeatureVector F → FeatureVector F
  asn_features payer asn ev fv =
      if eqb_ℤ ev.asn (pos 0)
      then mark_not_applicable "asn_acct_degree_1h" "NO_ASN"
          (mark_not_applicable "asn_is_new_to_payer" "NO_ASN" fv)
      else if not asn.present || asn.degraded
      then mark_not_evaluated "asn_acct_degree_1h" "PROFILE_DEGRADED"
          (mark_not_evaluated "asn_is_new_to_payer" "PROFILE_DEGRADED" fv)
      else set_feature "asn_acct_degree_1h" (f.of_int asn.acct_degree_1h) (
          set_feature "asn_is_new_to_payer"
            (bool_f (payer.present && not (known_asn payer.known_asns ev.asn))) fv)

  -- The speed since the payer's last payment, which counts as at least a minute ago.
  unfoldable pub jump_kmh : PayerBundle F → (now_ms : ℤ) → F × F → F × F → F
  jump_kmh payer now_ms here there =
      let dt_sec =
        m.max (f.over (f.of_int (sub64 now_ms payer.last_ts_ms)) (f.of_int (pos 1000)))
          (f.of_int (pos 60)) in
      f.over (haversine_km here there) (f.over dt_sec (f.of_int (pos 3600)))

  unfoldable pub geo_feature :
      PayerBundle F → Event → (now_ms : ℤ) → FeatureVector F → FeatureVector F
  geo_feature payer ev now_ms fv = elim (parse_geo_cell payer.last_geo_cell) [
    | none ↦ mark_not_applicable "geo_jump_kmh" "GEO_UNAVAILABLE_OR_UNCHANGED" fv
    | some here ↦ elim (parse_geo_cell ev.geo_cell) [
      | none ↦ mark_not_applicable "geo_jump_kmh" "GEO_UNAVAILABLE_OR_UNCHANGED" fv
      | some there ↦
          if not payer.present || str_eq payer.last_geo_cell ev.geo_cell
          then mark_not_applicable "geo_jump_kmh" "GEO_UNAVAILABLE_OR_UNCHANGED" fv
          else set_feature "geo_jump_kmh" (jump_kmh payer now_ms here there) fv
    ]
  ]

  unfoldable pub compute_channel_features :
      Event → ProfileBundle F → (now_ms : ℤ) → FeatureVector F → FeatureVector F
  compute_channel_features ev pb now_ms fv =
      geo_feature pb.payer ev now_ms
        (asn_features pb.payer pb.asn ev (device_features pb.payer pb.device ev now_ms fv))
