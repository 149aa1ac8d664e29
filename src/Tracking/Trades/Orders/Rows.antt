-- ===== src/Tracking/Trades/Orders/Rows.antt =====
-- What a change of the table of tracking/tracker.py leaves of its rows.
use poly_cortex.Base.{
  ℕ, ◌≡◌, refl, sym, ◌∙◌, ap, Bool, true, false, ◌==◌, Option, some, List, [], ◌∷◌, ◌++◌, map,
  String, Bool-cases, inl, inr, if◌then◌else◌, option_case, if_case, subst, concat,
}
use poly_cortex.Tracking.Trades.{Trade, TradeEntry, is_open, or_else}
use poly_cortex.Tracking.Trades.Orders.{
  OrderDict, given, or_option, get_trade, sync_row, sync_bracket_state_no_commit, update_row,
  same_order,
}

-- What a row is entered with.
abbrev pub entered :
    {F : Type 0} → Trade F → ℕ × String × String × F × F × String × Option String × TradeEntry F
entered t = (
  t.id, t.market_id, t.direction, t.entry_price, t.size_usdc, t.timestamp, t.local_order_id,
  t.entry,
)

-- What no call changes in a row: what it was entered with, and that it is closed.
pub record Kept (F : Type 0) (t u : Trade F) : Type 0 where
  pub entered_same : entered u ≡ entered t
  pub final : is_open t.status ≡ false → is_open u.status ≡ false

-- Every row is kept, and rows may follow.
abbrev pub Follows : (F : Type 0) → List (Trade F) → List (Trade F) → Type 0
Follows F [] us = Unit
Follows F (t ∷ ts) [] = ⊥
Follows F (t ∷ ts) (u ∷ us) = Kept F t u × Follows F ts us

module _ {F : Type 0} where
  pub Kept-refl : (t : Trade F) → Kept F t t
  Kept-refl t = record { entered_same = refl; final = λ h. h }

  pub Kept-trans : {t u v : Trade F} → Kept F t u → Kept F u v → Kept F t v
  Kept-trans h k = record {
    entered_same = k.entered_same ∙ h.entered_same;
    final = λ e. k.final (h.final e);
  }

  Kept-id : {t u : Trade F} → Kept F t u → u.id ≡ t.id
  Kept-id k = ap (λ e. e.0) k.entered_same

  pub Follows-refl : (ts : List (Trade F)) → Follows F ts ts
  Follows-refl [] = tt
  Follows-refl (t ∷ ts) = (Kept-refl t, Follows-refl ts)

  pub Follows-trans :
      (ts us vs : List (Trade F)) → Follows F ts us → Follows F us vs → Follows F ts vs
  Follows-trans [] us vs h k = tt
  Follows-trans (t ∷ ts) [] vs h k = absurd h
  Follows-trans (t ∷ ts) (u ∷ us) [] h k = absurd k
  Follows-trans (t ∷ ts) (u ∷ us) (v ∷ vs) h k =
      (Kept-trans h.0 k.0, Follows-trans ts us vs h.1 k.1)

  pub Follows-append : (ts us : List (Trade F)) → Follows F ts (ts ++ us)
  Follows-append [] us = tt
  Follows-append (t ∷ ts) us = (Kept-refl t, Follows-append ts us)

  pub Follows-map :
      (g : Trade F → Trade F) (ts : List (Trade F))
      → ((t : Trade F) → Kept F t (g t))
      → Follows F ts (map g ts)
  Follows-map g [] h = tt
  Follows-map g (t ∷ ts) h = (h t, Follows-map g ts h)

  pub Kept-if :
      (b : Bool) (g : Trade F → Trade F) (t : Trade F)
      → Kept F t (g t)
      → Kept F t (if b then g t else t)
  Kept-if true g t h = h
  Kept-if false g t h = Kept-refl t

  pub Follows-update_row :
      (id : ℕ) (g : Trade F → Trade F) (ts : List (Trade F))
      → ((t : Trade F) → Kept F t (g t))
      → Follows F ts (update_row id g ts)
  unfolding update_row
  Follows-update_row id g ts h = Follows-map _ ts (λ t. Kept-if (t.id == id) g t (h t))

  sync_row-Kept : (o : OrderDict F) (parent : String) (t : Trade F) → Kept F t (sync_row o parent t)
  unfolding sync_row
  sync_row-Kept o parent t =
      if_case (Kept F t) (same_order parent t.local_order_id)
        (record t {
          bracket_state = o.status;
          last_fill_at = or_option o.last_fill_at t.last_fill_at;
          notes = or_option t.notes (some (concat "bracket:" (or_else o.order_kind "gtt")));
        })
        t (record { entered_same = refl; final = λ h. h }) (Kept-refl t)

  pub Follows-sync :
      (o : OrderDict F) (ts : List (Trade F)) → Follows F ts (sync_bracket_state_no_commit o ts)
  unfolding sync_bracket_state_no_commit sync_row
  Follows-sync o ts =
      option_case (Follows F ts) (given o.parent_order_id) ts (λ parent. map (sync_row o parent) ts)
        (Follows-refl ts) (λ parent _. Follows-map (sync_row o parent) ts (sync_row-Kept o parent))

  get_trade-own :
      (id : ℕ) (u v : Trade F) (us : List (Trade F))
      → u.id ≡ v.id
      → (v.id == id) ≡ true
      → get_trade id (u ∷ us) ≡ some u
  unfolding get_trade
  get_trade-own id u v us h e = rw (get_trade, h, e) refl

  get_trade-later :
      (id : ℕ) (u v : Trade F) (us : List (Trade F))
      → u.id ≡ v.id
      → (v.id == id) ≡ false
      → get_trade id (u ∷ us) ≡ get_trade id us
  unfolding get_trade
  get_trade-later id u v us h e = rw (get_trade, h, e) refl

  some_injective : (t u : Trade F) → some t ≡ some u → t ≡ u
  some_injective t u h = cc

  pub get_trade-Follows :
      (id : ℕ) (t : Trade F) (ts us : List (Trade F))
      → Follows F ts us
      → get_trade id ts ≡ some t
      → (u : Trade F) × (get_trade id us ≡ some u) × Kept F t u
  unfolding get_trade
  get_trade-Follows id t [] us h k = cc
  get_trade-Follows id t (v ∷ ts) [] h k = absurd h
  get_trade-Follows id t (v ∷ ts) (u ∷ us) h k = elim (Bool-cases (v.id == id)) [
    | inl e ↦
        let same = some_injective v t (sym (get_trade-own id v v ts refl e) ∙ k) in
        (u, get_trade-own id u v us (Kept-id h.0) e, subst (λ w. Kept F w u) same h.0)
    | inr e ↦
        let (w, at, kept) =
          get_trade-Follows id t ts us h.1 (sym (get_trade-later id v v ts refl e) ∙ k) in
        (w, get_trade-later id u v us (Kept-id h.0) e ∙ at, kept)
  ]
