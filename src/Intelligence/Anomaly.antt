-- ===== src/Intelligence/Anomaly.antt =====
-- src/polymarket_agent/intelligence/anomaly.py. The times and the messages of the anomalies are left out; the
-- square root is an argument.
pub mod Windows
pub mod Severity
mod Tests
use poly_cortex.Base.{
  ℕ, ◌+◌, ◌-◌, Bool, true, false, not, ◌&&◌, Option, none, some, List, [], ◌∷◌, ◌++◌, map, drop,
  length, leb, String, str_eq, if◌then◌else◌,
}
use poly_cortex.Float.{Float, nought, one, fmin, abs, sum}
use poly_cortex.Tracking.Tally.{lookup, update_or, text_key}

pub data AnomalyType : Type 0 where
  volume_spike price_jump spread_widening liquidity_drop : AnomalyType

pub record Anomaly (F : Type 0) : Type 0 where
  pub anomaly_type : AnomalyType
  pub market_id : String
  pub severity : F
  pub current_value : F
  pub baseline_value : F
  pub ratio : F

pub record MarketTracker (F : Type 0) : Type 0 where
  pub window_size : ℕ
  pub prices : List F
  pub volumes : List F
  pub spreads : List F
  pub last_price : Option F

pub record AnomalyDetector (F : Type 0) : Type 0 where
  pub volume_spike_threshold : F
  pub price_jump_std_mult : F
  pub spread_widen_threshold : F
  pub liquidity_drop_threshold : F
  pub window_size : ℕ
  pub trackers : List (String × MarketTracker F)
  pub anomaly_count : ℕ

-- One market update.
pub record Observation (F : Type 0) : Type 0 where
  pub market_id : String
  pub price : F
  pub volume : F
  pub spread : F

-- `append` of a `deque` of at most `n` items.
unfoldable pub append : {A : Type 0} → ℕ → A → List A → List A
append n x xs = let ys = xs ++ (x ∷ []) in drop (length ys - n) ys

abbrev pub fresh : {F : Type 0} → ℕ → MarketTracker F
fresh n = record { window_size = n; prices = []; volumes = []; spreads = []; last_price = none }

module _ {F : Type 0} ⦃f : Float F⦄ where
  unfoldable pub update : F → F → F → MarketTracker F → MarketTracker F
  unfolding append
  update price volume spread t = record t {
    last_price = some price;
    prices = append t.window_size price t.prices;
    volumes = if f.lt nought volume then append t.window_size volume t.volumes else t.volumes;
    spreads = if f.lt nought spread then append t.window_size spread t.spreads else t.spreads;
  }

  abbrev pub average : List F → F
  average [] = nought
  average (x ∷ xs) = f.quot (sum (x ∷ xs)) (f.lit (length (x ∷ xs)) 0)

  unfoldable pub price_std : (F → F) → MarketTracker F → F
  price_std sqrt t =
      let avg = average t.prices in
      let squares = map (λ p. f.mul (f.sub p avg) (f.sub p avg)) t.prices in
      if leb 3 (length t.prices)
      then sqrt (f.quot (sum squares) (f.lit (length t.prices) 0))
      else nought

  abbrev pub has_enough_data : MarketTracker F → Bool
  has_enough_data t = leb 5 (length t.prices)

  -- How far a ratio is over its threshold, as a share of it, and at most 1.
  abbrev pub excess : F → F → F
  excess ratio threshold = fmin one (f.quot (f.sub ratio threshold) threshold)

  -- The check of the volume, and of the spread: a ratio to the average of its window.
  unfoldable pub ratio_check : AnomalyType → String → F → F → F → List (Anomaly F)
  ratio_check type market_id threshold value avg =
      let ratio = f.quot value avg in
      if f.lt nought value && f.lt nought avg && f.le threshold ratio
      then record {
        anomaly_type = type;
        market_id = market_id;
        severity = excess ratio threshold;
        current_value = value;
        baseline_value = avg;
        ratio = ratio;
      }
        ∷ []
      else []

  -- A deviation of at most 1e-9 makes the score infinite.
  unfoldable pub jump_check : String → F → F → F → F → List (Anomaly F)
  jump_check market_id mult price avg std =
      let change = abs (f.sub price avg) in
      let z_score = f.quot change std in
      let cap = f.lit 9999 1 in
      if f.lt nought change && f.le nought std
      then (if f.lt (f.lit 1 9) std
          then (if f.le mult z_score
              then record {
                anomaly_type = price_jump;
                market_id = market_id;
                severity = excess z_score mult;
                current_value = price;
                baseline_value = avg;
                ratio = fmin z_score cap;
              }
                ∷ []
              else [])
          else record {
            anomaly_type = price_jump;
            market_id = market_id;
            severity = one;
            current_value = price;
            baseline_value = avg;
            ratio = cap;
          }
            ∷ [])
      else []

  abbrev pub get_tracker : AnomalyDetector F → String → MarketTracker F
  get_tracker d id = elim (lookup id d.trackers) [ none ↦ fresh d.window_size | some t ↦ t ]

  unfoldable pub anomalies_of :
      (F → F) → AnomalyDetector F → MarketTracker F → Observation F → List (Anomaly F)
  unfolding ratio_check jump_check price_std
  anomalies_of sqrt d t o =
      if has_enough_data t
      then ratio_check volume_spike o.market_id d.volume_spike_threshold o.volume
          (average t.volumes)
        ++ jump_check o.market_id d.price_jump_std_mult o.price (average t.prices)
            (price_std sqrt t)
        ++ ratio_check spread_widening o.market_id d.spread_widen_threshold o.spread
            (average t.spreads)
      else []

  unfoldable pub check :
      (F → F) → Observation F → AnomalyDetector F → AnomalyDetector F × List (Anomaly F)
  unfolding anomalies_of update update_or
  check sqrt o d =
      let found = anomalies_of sqrt d (get_tracker d o.market_id) o in
      (
        record d {
          trackers =
              update_or o.market_id (fresh d.window_size) (update o.price o.volume o.spread)
                d.trackers;
          anomaly_count = d.anomaly_count + length found;
        },
        found,
      )

  abbrev pub without : String → List (String × MarketTracker F) → List (String × MarketTracker F)
  without id [] = []
  without id ((j, t) ∷ m) = if str_eq j id then m else (j, t) ∷ without id m

  -- A market that is given and not the empty text, or all.
  unfoldable pub reset : Option String → AnomalyDetector F → AnomalyDetector F
  reset none d = record d { trackers = []; anomaly_count = 0 }
  reset (some id) d =
      if str_eq id ""
      then record d { trackers = []; anomaly_count = 0 }
      else record d { trackers = without id d.trackers }

  -- Updates one after another, with the anomalies of each.
  unfoldable pub observe :
      (F → F) → List (Observation F) → AnomalyDetector F → AnomalyDetector F × List (Anomaly F)
  unfolding check
  observe sqrt [] d = (d, [])
  observe sqrt (o ∷ os) d =
      let (d', found) = check sqrt o d in
      let (d'', later) = observe sqrt os d' in (d'', found ++ later)
