-- ===== src/Intelligence/Anomaly/Windows.antt =====
-- What the trackers of intelligence/anomaly.py hold after any sequence of updates.
use poly_cortex.Base.{
  ℕ, zero, suc, ◌+◌, ◌-◌, ◌≡◌, refl, sym, ◌∙◌, ap, Option, none, some, List, [], ◌∷◌, ◌++◌, map,
  keep, drop, length, length-append, length-drop, append-nil, append_assoc, String, str_eq,
  if◌then◌else◌, arith, Bool-cases, inl, inr, ◌≤◌,
}
use poly_cortex.Float.{Float, nought}
use poly_cortex.Tracking.Tally.{lookup, tally_from, add_to, text_key}
use poly_cortex.Tracking.Tally.Groups.{folded, lookup-tally_from}
use poly_cortex.Intelligence.Anomaly.{
  AnomalyDetector, Observation, MarketTracker, append, fresh, update, check, observe,
}

module _ {A : Type 0} where
  -- The last `n` items.
  abbrev pub last : ℕ → List A → List A
  last n xs = drop (length xs - n) xs

  drop-append_of_le : (k : ℕ) (xs ys : List A) → k ≤ length xs → drop k (xs ++ ys) ≡ drop k xs ++ ys
  drop-append_of_le zero xs ys h = refl
  drop-append_of_le (suc k) [] ys h = absurd (omega arith)
  drop-append_of_le (suc k) (x ∷ xs) ys h = drop-append_of_le k xs ys (omega arith)

  drop-nil : (k : ℕ) → drop {A = A} k [] ≡ []
  drop-nil zero = refl
  drop-nil (suc k) = refl

  drop-drop : (a b : ℕ) (xs : List A) → drop a (drop b xs) ≡ drop (b + a) xs
  drop-drop a zero xs = ap (λ n. drop n xs) (omega arith)
  drop-drop a (suc b) [] = drop-nil a ∙ sym (drop-nil (suc b + a))
  drop-drop a (suc b) (x ∷ xs) =
      drop-drop a b xs ∙ ap (λ n. drop n (x ∷ xs)) {x = suc (b + a)} (omega arith)

  append-last : (n : ℕ) (x : A) (xs : List A) → append n x (last n xs) ≡ last n (xs ++ (x ∷ []))
  unfolding append
  append-last n x xs =
      let k = length xs - n in
      rw (sym (drop-append_of_le k xs (x ∷ []) (omega arith))) (
        drop-drop (length (drop k (xs ++ (x ∷ []))) - n) k (xs ++ (x ∷ []))
        ∙ ap (λ m. drop m (xs ++ (x ∷ [])))
            (omega (arith, length-drop k (xs ++ (x ∷ [])), length-append xs (x ∷ []))))

module _ {F : Type 0} ⦃f : Float F⦄ where
  abbrev key : Observation F → Option String
  key o = some o.market_id

  abbrev observed : Observation F → MarketTracker F → MarketTracker F
  observed o = update o.price o.volume o.spread

  -- Every update goes to the tracker of its market alone.
  trackers-observe :
      (sqrt : F → F) (os : List (Observation F)) (d : AnomalyDetector F)
      → (observe sqrt os d).0.trackers ≡ tally_from key (fresh d.window_size) observed d.trackers os
  unfolding observe tally_from check add_to
  trackers-observe sqrt [] d = refl
  trackers-observe sqrt (o ∷ os) d = trackers-observe sqrt os (check sqrt o d).0

  -- A tracker that holds the last of the prices, volumes and spreads given.
  abbrev pub tracker_of : ℕ → List F → List F → List F → Option F → MarketTracker F
  tracker_of n ps vs ss p = record {
    window_size = n;
    prices = last n ps;
    volumes = last n vs;
    spreads = last n ss;
    last_price = p;
  }

  abbrev pub positive : F → List F
  positive x = if f.lt nought x then x ∷ [] else []

  append-positive :
      (n : ℕ) (x : F) (xs : List F)
      → (if f.lt nought x then append n x (last n xs) else last n xs) ≡ last n (xs ++ positive x)
  append-positive n x xs = elim (Bool-cases (f.lt nought x)) [
    | inl e ↦ rw e (append-last n x xs)
    | inr e ↦ rw (e, append-nil) refl
  ]

  update-tracker_of :
      (n : ℕ) (ps vs ss : List F) (p : Option F) (o : Observation F)
      → observed o (tracker_of n ps vs ss p)
        ≡ tracker_of n
            (ps ++ (o.price ∷ []))
            (vs ++ positive o.volume)
            (ss ++ positive o.spread)
            (some o.price)
  unfolding update
  update-tracker_of n ps vs ss p o =
      cc (append-last n o.price ps, append-positive n o.volume vs, append-positive n o.spread ss)

  abbrev pub positives : List F → List F
  positives xs = keep (λ x. f.lt nought x) xs

  positive-append :
      (xs : List F) (x : F) (ys : List F)
      → (xs ++ positive x) ++ positives ys ≡ xs ++ positives (x ∷ ys)
  positive-append xs x ys = elim (Bool-cases (f.lt nought x)) [
    | inl e ↦ rw e (append_assoc xs (x ∷ []) (positives ys))
    | inr e ↦ rw (e, append-nil) refl
  ]

  -- The price of the last update, of `o` and those that follow it.
  abbrev pub last_price_of : Observation F → List (Observation F) → F
  last_price_of o [] = o.price
  last_price_of o (o' ∷ os) = last_price_of o' os

  tracker_of_eq :
      (n : ℕ) (p : Option F) {ps ps' vs vs' ss ss' : List F}
      → ps ≡ ps'
      → vs ≡ vs'
      → ss ≡ ss'
      → some (tracker_of n ps vs ss p) ≡ some (tracker_of n ps' vs' ss' p)
  tracker_of_eq n p h k l = rw (h, k, l) refl

  tracker_fields :
      (n k : ℕ)
      → drop {A = F} k [] ≡ []
      → fresh {F = F} n ≡ record {
        window_size = n;
        prices = drop k [];
        volumes = drop k [];
        spreads = drop k [];
        last_price = none;
      }
  tracker_fields n k h = rw h refl

  fresh-tracker_of : (n : ℕ) → fresh {F = F} n ≡ tracker_of n [] [] [] none
  fresh-tracker_of n = tracker_fields n (0 - n) (drop-nil (0 - n))

  folded-tracker_of :
      (n : ℕ) (ps vs ss : List F) (p : Option F) (o : Observation F) (os : List (Observation F))
      → folded key (fresh n) observed (some (tracker_of n ps vs ss p)) (o ∷ os)
        ≡ some (
            tracker_of n
              (ps ++ map (λ o. o.price) (o ∷ os))
              (vs ++ positives (map (λ o. o.volume) (o ∷ os)))
              (ss ++ positives (map (λ o. o.spread) (o ∷ os)))
              (some (last_price_of o os)))
  folded-tracker_of n ps vs ss p o [] = ap some (update-tracker_of n ps vs ss p o)
  folded-tracker_of n ps vs ss p o (o' ∷ os) =
      ap (λ t. folded key (fresh n) observed (some t) (o' ∷ os)) (update-tracker_of n ps vs ss p o)
      ∙ folded-tracker_of n (ps ++ (o.price ∷ [])) (vs ++ positive o.volume)
          (ss ++ positive o.spread) (some o.price) o' os
      ∙ tracker_of_eq n (some (last_price_of o' os))
          (append_assoc ps (o.price ∷ []) (map (λ o. o.price) (o' ∷ os)))
          (positive-append vs o.volume (map (λ o. o.volume) (o' ∷ os)))
          (positive-append ss o.spread (map (λ o. o.spread) (o' ∷ os)))

  -- What a tracker holds that was given these updates, and no other.
  abbrev pub seen : ℕ → List (Observation F) → Option (MarketTracker F)
  seen n [] = none
  seen n (o ∷ os) = some (
      tracker_of n (map (λ o. o.price) (o ∷ os)) (positives (map (λ o. o.volume) (o ∷ os)))
        (positives (map (λ o. o.spread) (o ∷ os))) (some (last_price_of o os)))

  folded-seen :
      (n : ℕ) (os : List (Observation F)) → folded key (fresh n) observed none os ≡ seen n os
  folded-seen n [] = refl
  folded-seen n (o ∷ os) =
      ap (λ t. folded key (fresh n) observed (some (observed o t)) os) (fresh-tracker_of n)
      ∙ folded-tracker_of n [] [] [] none o os

  -- After any updates of a detector that tracked no market: the tracker of a market has the last `window_size` of
  -- the prices of its own updates, of their volumes above 0 and of their spreads above 0, and their last price;
  -- a market without an update has no tracker.
  pub observe-windows :
      (sqrt : F → F) (os : List (Observation F)) (d : AnomalyDetector F) (id : String)
      → d.trackers ≡ []
      → lookup id (observe sqrt os d).0.trackers
        ≡ seen d.window_size (keep (λ o. str_eq o.market_id id) os)
  unfolding lookup
  observe-windows sqrt os d id h =
      ap (lookup id) (trackers-observe sqrt os d)
      ∙ lookup-tally_from key (fresh d.window_size) observed id d.trackers os
      ∙ ap
          (λ m.
            folded key (fresh d.window_size) observed (lookup id m)
              (keep (λ o. str_eq o.market_id id) os))
          h
      ∙ folded-seen d.window_size (keep (λ o. str_eq o.market_id id) os)
