-- ===== src/Workload/Tests.antt =====
-- A slot at concrete entries and instants, in seconds.
use dev_health_go.Base.{
  true, some, ◌+◌, ◌*◌, ◌^◌, ◌≤◌, ◌≡◌, ◌≢◌, refl, codes, ◌⊎◌, inl, inr, [], ◌∷◌, min, arith,
}
use dev_health_go.Workload.Config
use dev_health_go.Workload.Slot.{
  unavailable, Entry, Slot, Settings, empty_slot, check_token, look, look_kept, exchanges, land,
  land_checked, Readings, backoff, double_to, succeed,
}
use dev_health_go.Workload.Slot.Usable.{Holds, IsExchanged, look-IsUsable, land-IsUsable}
use dev_health_go.Workload.Slot.Backoff.{backoff-eq}
use dev_health_go.Workload.Slot.Flight.{made, started, one_flight, looks, quiet_after_failure}

abbrev settings : Settings
settings = record { margin = 30; backoff_floor = 1; backoff_ceiling = 30; refresh_part = λ n. n }

abbrev entry : Entry
entry = record {
  token = codes "t";
  claims = inr (record { not_before = 100; expires = 400 });
  sent = 100;
  lifetime = 300;
}

abbrev readings : Readings
readings = record { at_check = 101; at_retry = 102; at_entry = 103 }

abbrev holding : Slot
holding = succeed empty_slot entry

look-IsUsable_example : Holds settings holding (codes "t") 200
unfolding look look_kept check_token
look-IsUsable_example = look-IsUsable settings holding 200 (codes "t") refl

land-IsUsable_example :
    IsExchanged settings
      (inr entry)
      (land settings empty_slot (inr entry) readings).0
      (codes "t")
      101
    ⊎ Holds settings empty_slot (codes "t") 103
unfolding land land_checked check_token
land-IsUsable_example = land-IsUsable settings empty_slot (inr entry) readings (codes "t") refl

one_flight_example : 1 ≤ 1
unfolding look look_kept
one_flight_example =
    one_flight settings (look settings empty_slot 5).0 1 (started empty_slot 0 5 made refl)

quiet_after_failure_example :
    (look settings
      (looks settings (land settings empty_slot (inl unavailable) readings).0 (102 ∷ []))
      102).1
    ≢ exchanges
unfolding backoff double_to
quiet_after_failure_example =
    quiet_after_failure settings empty_slot unavailable readings (102 ∷ []) 102 (omega arith)

backoff_example : backoff settings (3 + 1) ≡ min (1 * 2 ^ 3) 30
backoff_example = backoff-eq settings 3

abbrev config : Config.Config
config = record {
  has_subject = true;
  transport_ok = true;
  issuer_ok = true;
  exchange_url_ok = true;
  timeout = some 0;
  refresh_numerator = some 0;
  refresh_denominator = 1;
  safety_margin = some 0;
  backoff_floor = some 0;
  backoff_ceiling = some 0;
}

abbrev config_limits : Config.Limits
config_limits = record {
  timeout = 5_000_000_000;
  numerator = 1;
  denominator = 2;
  margin = 30_000_000_000;
  floor = 1_000_000_000;
  ceiling = 30_000_000_000;
}
