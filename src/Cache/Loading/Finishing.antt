-- ===== src/Cache/Loading/Finishing.antt =====
-- The goroutines of the snapshot can always go on until each of them has written all its rows.
use lago.Prelude.{str_eq, eq_refl, List, [], ◌∷◌, ◌≡◌, inl, inr, refl, sym, ap, ◌∙◌, Bool-cases}
use lago.Cache.Store.{Badger, Codec}
use lago.Cache.Loading.{
  Table, billable_metrics, subscriptions, charges, billable_metric_filters, charge_filters,
  charge_filter_values, Row, stored, prefix, Loading, set_load, write, Run, start, next,
}
use lago.Cache.Loading.Together.{same_table}

nothing_left : {A : Type 0} {x : A} {xs : List A} → x ∷ xs ≡ [] → ⊥
nothing_left h = cc

module _ (B : Badger) (C : (t : Table) → Codec B.Bytes (Row t) (stored t)) where
  extend : {s t u : Loading B C} → Run B C s t → Run B C t u → Run B C s u
  extend r start = r
  extend r (next q st) = next (extend r q) st

  -- The tables that `s` has loaded stay so.
  abbrev Keeps : Loading B C → Loading B C → Type 0
  Keeps s e = (u : Table) → s.loads u ≡ [] → e.loads u ≡ []

  -- Each goroutine has returned.
  abbrev pub Ended : Loading B C → Type 0
  Ended s = (t : Table) → s.loads t ≡ []

  finish_table :
      (t : Table) (writes : List (B.Db → B.Db)) (s : Loading B C)
      → s.loads t ≡ writes
      → (e : Loading B C) × Run B C s e × (e.loads t ≡ []) × Keeps s e
  finish_table t [] s h = (s, start, h, λ u k. k)
  finish_table t (w ∷ rest) s h =
      let after : Loading B C = record { loads = set_load B C t rest s.loads; db = w s.db } in
      let (e, run, done, keeps) = finish_table t rest after (rw (eq_refl (prefix t)) refl) in
      (
        e,
        extend (next start (write t w rest h)) run,
        done,
        λ u k. keeps u (elim (Bool-cases (str_eq (prefix t) (prefix u))) [
          | inl hit ↦ absurd (nothing_left (sym h ∙ ap s.loads (same_table t u hit) ∙ k))
          | inr miss ↦ rw miss k
        ]),
      )

  abbrev AllDone : List Table → Loading B C → Type 0
  AllDone [] e = Unit
  AllDone (t ∷ ts) e = (e.loads t ≡ []) × AllDone ts e

  finish_tables :
      (ts : List Table) (s : Loading B C)
      → (e : Loading B C) × Run B C s e × AllDone ts e × Keeps s e
  finish_tables [] s = (s, start, tt, λ u k. k)
  finish_tables (t ∷ ts) s =
      let (m, first, done, keeps) = finish_table t (s.loads t) s refl in
      let (e, run, all, kept) = finish_tables ts m in
      (e, extend first run, (kept t done, all), λ u k. kept u (keeps u k))

  -- From wherever they have got, the goroutines of the snapshot can go on until all have returned.
  pub Run-Ended : (s : Loading B C) → (e : Loading B C) × Run B C s e × Ended e
  Run-Ended s =
      let tables =
        billable_metrics ∷ subscriptions ∷ charges ∷ billable_metric_filters ∷ charge_filters
        ∷ charge_filter_values ∷ [] in
      let (e, run, (m, (sb, (c, (mf, (cf, (v, _)))))), keeps) = finish_tables tables s in
      (e, run, all_six e m sb c mf cf v)
    where
      all_six :
          (e : Loading B C)
          → e.loads billable_metrics ≡ []
          → e.loads subscriptions ≡ []
          → e.loads charges ≡ []
          → e.loads billable_metric_filters ≡ []
          → e.loads charge_filters ≡ []
          → e.loads charge_filter_values ≡ []
          → Ended e
      all_six e m sb c mf cf v billable_metrics = m
      all_six e m sb c mf cf v subscriptions = sb
      all_six e m sb c mf cf v charges = c
      all_six e m sb c mf cf v billable_metric_filters = mf
      all_six e m sb c mf cf v charge_filters = cf
      all_six e m sb c mf cf v charge_filter_values = v
