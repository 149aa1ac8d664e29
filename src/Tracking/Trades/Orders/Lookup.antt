-- ===== src/Tracking/Trades/Orders/Lookup.antt =====
-- Looking up a row of the table of tracking/tracker.py by its id, after a change of the rows.
use poly_cortex.Base.{
  ℕ, ◌≡◌, refl, ◌==◌, ==_iff, some, List, [], ◌∷◌, ◌++◌, map, arith, map_option, Bool-cases, inl,
  inr, if◌then◌else◌,
}
use poly_cortex.Tracking.Trades.{Trade}
use poly_cortex.Tracking.Trades.Orders.{get_trade}

module _ {F : Type 0} where
  get_trade-cons :
      (id : ℕ) (t : Trade F) (ts : List (Trade F))
      → get_trade id (t ∷ ts) ≡ (if t.id == id then some t else get_trade id ts)
  unfolding get_trade
  get_trade-cons id t ts = refl

  get_trade-map_cons :
      (id : ℕ) (u t : Trade F) (ts us : List (Trade F)) (g : Trade F → Trade F)
      → u.id ≡ t.id
      → u ≡ g t
      → get_trade id us ≡ map_option g (get_trade id ts)
      → get_trade id (u ∷ us) ≡ map_option g (get_trade id (t ∷ ts))
  unfolding get_trade
  get_trade-map_cons id u t ts us g h e k = ground (arith, h, e, k)

  pub get_trade-map :
      (id : ℕ) (g : Trade F → Trade F) (ts : List (Trade F))
      → ((t : Trade F) → (g t).id ≡ t.id)
      → get_trade id (map g ts) ≡ map_option g (get_trade id ts)
  unfolding get_trade
  get_trade-map id g [] h = refl
  get_trade-map id g (t ∷ ts) h =
      get_trade-map_cons id (g t) t ts (map g ts) g (h t) refl (get_trade-map id g ts h)

  pub id-update_row :
      (id : ℕ) (g : Trade F → Trade F)
      → ((t : Trade F) → (g t).id ≡ t.id)
      → (t : Trade F) → (if t.id == id then g t else t).id ≡ t.id
  id-update_row id g h t = elim (Bool-cases (t.id == id)) [ inl e ↦ rw e (h t) | inr e ↦ rw e ]

  pub get_trade-append :
      (id : ℕ) (t : Trade F) (ts us : List (Trade F))
      → get_trade id ts ≡ some t
      → get_trade id (ts ++ us) ≡ some t
  unfolding get_trade
  get_trade-append id t [] us h = cc
  get_trade-append id t (u ∷ ts) us h = ground (arith, get_trade-append id t ts us)

  pub get_trade-id :
      (id : ℕ) (t : Trade F) (ts : List (Trade F)) → get_trade id ts ≡ some t → t.id ≡ id
  unfolding get_trade
  get_trade-id id t [] h = cc
  get_trade-id id t (u ∷ ts) h = elim (Bool-cases (u.id == id)) [
    | inl e ↦ ground (arith, ==_iff u.id id)
    | inr e ↦ get_trade-id id t ts (rw e at h)
  ]
