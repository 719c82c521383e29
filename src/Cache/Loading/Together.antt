-- ===== src/Cache/Loading/Together.antt =====
-- The six snapshots together: what a reader of the cache finds once they are loaded.
use lago.Prelude.{
  ℕ, String, str_eq, eq_iff, true, false, false≢true, List, [], ◌∷◌, ◌≡◌, ◌≢◌, Option, eq_refl, In,
  inl, inr, refl, sym, ap, ◌∙◌, subst, Bool-cases, Option-cases,
}
use lago.Utils.Result.{
  ok, ok-injective, error≢ok, returns-injective, Except, Except-cases, Result, to_except, success,
  returns, panics≢returns,
}
use lago.Cache.Store.{Badger, Laws, Codec}
use lago.Cache.Json.{set_json, get_json}
use lago.Cache.Writes.{set_json-cases, get_json-set_json}
use lago.Cache.Loading.{
  Table, Row, stored, key_fn, prefix, load_table, write_row, row_writes, table_writes, Loading,
  Step, write, Run, start, next, load_initial_snapshot,
}
use lago.Cache.Loading.Writing.{
  IsKeyOf, IsKeyOf-unique, key_fn-IsKeyOf, prefix_injective, run_writes, load_table-table_writes,
}

-- Each element of the list has the property.
abbrev Every : {A : Type 0} → (A → Type 0) → List A → Type 0
Every P [] = Unit
Every P (x ∷ xs) = P x × Every P xs

pub same_table : (t u : Table) → str_eq (prefix t) (prefix u) ≡ true → t ≡ u
same_table t u h = prefix_injective t u ((eq_iff (prefix t) (prefix u)).0 h)

other_table : (t u : Table) → str_eq (prefix t) (prefix u) ≡ false → t ≢ u
other_table t u h e =
    false≢true (sym h ∙ ap (λ v. str_eq (prefix t) (prefix v)) (sym e) ∙ eq_refl (prefix t))

value_of : {A : Type 0} (r : Result A) (x : A) → to_except r ≡ ok x → r.value ≡ x
unfolding to_except
value_of r x h = elim (Option-cases r.err) [
  | inl fine ↦ ok-injective (rw fine at h)
  | inr (e, failed) ↦ absurd (error≢ok (rw failed at h))
]

module _ (B : Badger) (L : Laws B) (C : (t : Table) → Codec B.Bytes (Row t) (stored t)) (t : Table)
    (now : ℕ) (k : String) where
  abbrev read : B.Db → Result (Option (Row t))
  read db = get_json B (C t) now k db

  -- What the write does to the key depends on nothing but what the key reads before.
  abbrev IsOwn : (B.Db → B.Db) → Type 0
  IsOwn w = (db db' : B.Db) → read db ≡ read db' → read (w db) ≡ read (w db')

  -- The write does not change what the key reads.
  abbrev IsForeign : (B.Db → B.Db) → Type 0
  IsForeign w = (db : B.Db) → read (w db) ≡ read db

  run_writes-read :
      (ws : List (B.Db → B.Db)) (db db' : B.Db)
      → Every IsOwn ws
      → read db ≡ read db'
      → read (run_writes B C ws db) ≡ read (run_writes B C ws db')
  run_writes-read [] db db' own e = e
  run_writes-read (w ∷ ws) db db' (o, own) e = run_writes-read ws (w db) (w db') own (o db db' e)

  record Inv (before : B.Db) (s : Loading B C) : Type 0 where
    own : Every IsOwn (s.loads t)
    foreign : (u : Table) → u ≢ t → Every IsForeign (s.loads u)
    kept : read (run_writes B C (s.loads t) s.db) ≡ read before

  Step-Inv : (before : B.Db) {s s' : Loading B C} → Step B C s s' → Inv before s → Inv before s'
  Step-Inv before {s} (write u w rest e) inv = elim (Bool-cases (str_eq (prefix u) (prefix t))) [
    | inl same ↦
        let here : s.loads t ≡ w ∷ rest = ap s.loads (sym (same_table u t same)) ∙ e in
        record {
          own = rw same (subst (Every IsOwn) here inv.own).1;
          foreign = λ v other. elim (Bool-cases (str_eq (prefix u) (prefix v))) [
            | inl hit ↦ absurd (other (sym (same_table u v hit) ∙ same_table u t same))
            | inr miss ↦ rw miss (inv.foreign v other)
          ];
          kept = rw same (rw here at inv.kept);
        }
    | inr other ↦
        let there : Every IsForeign (w ∷ rest) =
          subst (Every IsForeign) e (inv.foreign u (other_table u t other)) in
        record {
          own = rw other inv.own;
          foreign = λ v differs. elim (Bool-cases (str_eq (prefix u) (prefix v))) [
            | inl hit ↦ rw hit there.1
            | inr miss ↦ rw miss (inv.foreign v differs)
          ];
          kept =
              rw other
                (run_writes-read (s.loads t) (w s.db) s.db inv.own (there.0 s.db) ∙ inv.kept);
        }
  ]

  Run-Inv : (before : B.Db) {s s' : Loading B C} → Run B C s s' → Inv before s → Inv before s'
  Run-Inv before start inv = inv
  Run-Inv before (next run step) inv = Step-Inv before step (Run-Inv before run inv)

  -- The store takes each of the rows that has a key, whatever it holds.
  abbrev pub Accepts : List (Row t) → Type 0
  Accepts rows =
      (row : Row t)
      → In row rows
      → str_eq (key_fn t row) "" ≡ false
      → (db : B.Db) → success (set_json B (C t) (key_fn t row) row db).0 ≡ true

  write_row-IsOwn :
      (row : Row t)
      → ((db : B.Db) → success (set_json B (C t) (key_fn t row) row db).0 ≡ true)
      → IsOwn (write_row B C t row)
  write_row-IsOwn row accepts db db' e =
      get_json-set_json B L (C t) now (key_fn t row) k row db (accepts db)
      ∙ rw e (sym (get_json-set_json B L (C t) now (key_fn t row) k row db' (accepts db')))

  row_writes-IsOwn : (rows : List (Row t)) → Accepts rows → Every IsOwn (row_writes B C t rows)
  unfolding row_writes
  row_writes-IsOwn [] accepts = tt
  row_writes-IsOwn (row ∷ rows) accepts = elim (Bool-cases (str_eq (key_fn t row) "")) [
    | inl skip ↦ rw (skip, row_writes) (row_writes-IsOwn rows (λ x m. accepts x (inr m)))
    | inr keyed ↦
        rw (keyed, row_writes)
          (
            write_row-IsOwn row (accepts row (inl refl) keyed),
            row_writes-IsOwn rows (λ x m. accepts x (inr m)),
          )
  ]

  -- A row of another table goes to another key.
  key_misses :
      (u : Table) (row : Row u)
      → u ≢ t
      → IsKeyOf t k
      → str_eq (key_fn u row) "" ≡ false
      → str_eq (key_fn u row) k ≡ false
  key_misses u row other own keyed = elim (Bool-cases (str_eq (key_fn u row) k)) [
    | inr miss ↦ miss
    | inl hit ↦ elim (key_fn-IsKeyOf u row) [
      | inl empty ↦ absurd (false≢true (sym keyed ∙ empty))
      | inr theirs ↦ absurd (
          other
            (IsKeyOf-unique u t k (subst (IsKeyOf u) ((eq_iff (key_fn u row) k).0 hit) theirs) own))
    ]
  ]

  write_row-IsForeign :
      (u : Table) (row : Row u) → str_eq (key_fn u row) k ≡ false → IsForeign (write_row B C u row)
  unfolding get_json
  write_row-IsForeign u row miss db = elim (set_json-cases B (C u) (key_fn u row) row db) [
    | inl (e, f) ↦ rw (f, write_row) refl
    | inr (bytes, db', m, set, f) ↦
        rw (f, write_row) (rw (L.get-set now (key_fn u row) k bytes db db' set, miss) refl)
  ]

  row_writes-IsForeign :
      (u : Table)
      → u ≢ t
      → IsKeyOf t k
      → (rows : List (Row u)) → Every IsForeign (row_writes B C u rows)
  unfolding row_writes
  row_writes-IsForeign u other own [] = tt
  row_writes-IsForeign u other own (row ∷ rows) = elim (Bool-cases (str_eq (key_fn u row) "")) [
    | inl skip ↦ rw (skip, row_writes) (row_writes-IsForeign u other own rows)
    | inr keyed ↦
        rw (keyed, row_writes)
          (
            write_row-IsForeign u row (key_misses u row other own keyed),
            row_writes-IsForeign u other own rows,
          )
  ]

  module _ (fetched : (u : Table) → Result (List (Row u))) (accepts : Accepts (fetched t).value)
      (own : IsKeyOf t k) where
    table_writes-IsOwn : Every IsOwn (table_writes B C t (fetched t))
    unfolding table_writes to_except
    table_writes-IsOwn = elim (Except-cases (to_except (fetched t))) [
      | inl (e, h) ↦ rw (h, table_writes) tt
      | inr (rows, h) ↦
          rw (h, table_writes)
            (row_writes-IsOwn rows (subst Accepts (value_of (fetched t) rows h) accepts))
    ]

    table_writes-IsForeign : (u : Table) → u ≢ t → Every IsForeign (table_writes B C u (fetched u))
    unfolding table_writes
    table_writes-IsForeign u other = elim (Except-cases (to_except (fetched u))) [
      | inl (e, h) ↦ rw (h, table_writes) tt
      | inr (rows, h) ↦ rw (h, table_writes) (row_writes-IsForeign u other own rows)
    ]

    loading-Inv :
        (db : B.Db)
        → Inv
            (run_writes B C (table_writes B C t (fetched t)) db)
            (record { loads = λ u. table_writes B C u (fetched u); db = db })
    loading-Inv db = record {
      own = table_writes-IsOwn;
      foreign = table_writes-IsForeign;
      kept = refl;
    }

module _ (B : Badger) (L : Laws B) (C : (t : Table) → Codec B.Bytes (Row t) (stored t)) where
  -- Whatever the order in which the goroutines of the snapshot write: once a table has been loaded
  -- and the store takes each of its rows that has a key, each of its keys reads what it would read had
  -- the table been loaded alone. The loads of the other tables do not matter, with or without errors, even unfinished.
  pub Run-load_table :
      {D : Type 0} (connection : Except D) (fetched : (u : Table) → Result (List (Row u)))
      (db : B.Db) (s s' : Loading B C) (t : Table) (now : ℕ) (k : String)
      → load_initial_snapshot B C connection fetched db ≡ returns s
      → Run B C s s'
      → s'.loads t ≡ []
      → Accepts B L C t now k (fetched t).value
      → IsKeyOf t k
      → get_json B (C t) now k s'.db ≡ get_json B (C t) now k (load_table B C t (fetched t) db).1
  unfolding load_initial_snapshot
  Run-load_table connection fetched db s s' t now k begins run loaded accepts own =
      elim (Except-cases connection) [
        | inl (e, c) ↦ panics≢returns (rw (c, load_initial_snapshot) at begins)
        | inr (d, c) ↦
            let first = returns-injective (rw (c, load_initial_snapshot) at begins) in
            let ready =
              subst (Inv B L C t now k _) first
                (loading-Inv B L C t now k fetched accepts own db) in
            let inv = Run-Inv B L C t now k _ run ready in
            rw loaded at inv.kept
            ∙ ap (get_json B (C t) now k) (sym (load_table-table_writes B C t (fetched t) db))
      ]
