-- ===== src/Processor/Main/Ready.antt =====
-- What a program that has started has.
use lago.Prelude.{
  ℕ, String, str_eq, [], Option, none, some, is_some, ◌≡◌, inl, inr, sym, ap, ◌∙◌, subst,
  Bool-cases,
}
use lago.Utils.Result.{
  ok-injective, returns-injective, Except, ok, error, Except-cases, Outcome-cases, returns,
  panics≢returns,
}
use lago.Utils.Env.{Env}
use lago.Config.Tracing.{Sdk, Tracer, start_tracing, init_tracer_provider}
use lago.Cache.Store.{Badger, Laws, Codec}
use lago.Cache.Json.{get_json}
use lago.Cache.Loading.{Table, Row, stored, load_table, Loading, Run, load_initial_snapshot}
use lago.Cache.Loading.Writing.{IsKeyOf}
use lago.Cache.Loading.Together.{Accepts, Run-load_table}
use lago.Cache.Opening.{new_cache, consumers}
use lago.Cache.Opening.Starting.{consume_changes-Outcomes}
use lago.Cache.Opening.Starting as Starting
use lago.Processor.Startup.{Services, start_processing_events}
use lago.Processor.Startup.Ready.{Ready, start_processing_events-Ready}
use lago.Processor.Main.{
  World, Cached, Program, start_consuming, open_cache, use_cache, run_processing, main,
}

module _ (sdk : Sdk) (services : Services sdk) (B : Badger)
    (C : (t : Table) → Codec B.Bytes (Row t) (stored t)) (Client : Type 0) (env : Env)
    (w : World sdk services B C Client) where
  -- The six consumers run.
  abbrev pub Consuming : Cached sdk services B C Client → Type 0
  Consuming c =
      Starting.Started B C Client w.new_client w.uuid env (env "LAGO_DEBEZIUM_TOPIC_PREFIX")
        consumers c.consumers

  -- The store is what the goroutines of the snapshot made of the one that was opened, by some turns
  -- of theirs after which all had returned.
  abbrev pub Filled : Cached sdk services B C Client → Type 0
  Filled c =
      (db : B.Db) × (loading : Loading B C) × (w.opened ≡ ok db)
      × (load_initial_snapshot B C w.connection w.fetched db ≡ returns loading)
      × ((end : Loading B C) × Run B C loading end
          × ((t : Table) → end.loads t ≡ [])
          × (c.store ≡ end.db))

  start_consuming-returns :
      (store : B.Db) (c : Cached sdk services B C Client)
      → start_consuming sdk services B C Client env w store ≡ returns c
      → Consuming c × (c.store ≡ store)
  unfolding start_consuming
  start_consuming-returns store c h =
      let prefix = env "LAGO_DEBEZIUM_TOPIC_PREFIX" in
      elim (consume_changes-Outcomes B C Client w.new_client w.uuid env prefix) [
        | inl (fine, running) ↦
            let e = returns-injective (rw (fine, start_consuming) at h) in
            (
              subst (λ (d : Cached sdk services B C Client). Consuming d) e running,
              sym (ap (λ (d : Cached sdk services B C Client). d.store) e),
            )
        | inr (before, t, after, e, split, fails, err, running) ↦
            panics≢returns (rw (err, start_consuming) at h)
      ]

  opened_cache : (opened : Except B.Db) (db : B.Db) → new_cache opened ≡ ok db → opened ≡ ok db
  unfolding new_cache
  opened_cache (error e) db h = absurd (cc)
  opened_cache (ok d) db h = h

  open_cache-returns :
      (c : Cached sdk services B C Client)
      → open_cache sdk services B C Client env w ≡ returns c
      → Consuming c × Filled c
  unfolding open_cache
  open_cache-returns c h = elim (Except-cases (new_cache w.opened)) [
    | inl (e, n) ↦ panics≢returns (rw (n, open_cache) at h)
    | inr (db, n) ↦ elim (Outcome-cases (load_initial_snapshot B C w.connection w.fetched db)) [
      | inl (e, l) ↦ panics≢returns (rw l at (rw (n, open_cache) at h))
      | inr (loading, l) ↦
          let runs =
            start_consuming-returns (w.schedule loading).end.db c
              (rw l at (rw (n, open_cache) at h)) in
          let turns = w.schedule loading in
          (
            runs.0,
            (
              db,
              loading,
              opened_cache w.opened db n,
              l,
              (turns.end, turns.run, turns.waited, runs.1),
            ),
          )
    ]
  ]

  -- What a cache that the program has is.
  abbrev pub CacheReady : Option (Cached sdk services B C Client) → Type 0
  CacheReady none = Unit
  CacheReady (some c) = Consuming c × Filled c

  use_cache-returns :
      (o : Option (Cached sdk services B C Client))
      → use_cache sdk services B C Client env w ≡ returns o
      → (is_some o ≡ str_eq (env "LAGO_USE_MEMORY_CACHE") "true") × CacheReady o
  unfolding use_cache
  use_cache-returns o h = elim (Bool-cases (str_eq (env "LAGO_USE_MEMORY_CACHE") "true")) [
    | inr f ↦
        let e = returns-injective (rw (f, use_cache) at h) in
        (rw f (ap is_some (sym e)), subst CacheReady e tt)
    | inl t ↦ elim (Outcome-cases (open_cache sdk services B C Client env w)) [
      | inl (e, p) ↦ panics≢returns (rw p at (rw (t, use_cache) at h))
      | inr (c, p) ↦
          let e = returns-injective (rw p at (rw (t, use_cache) at h)) in
          (rw t (ap is_some (sym e)), subst CacheReady e (open_cache-returns c p))
    ]
  ]

  -- What a program that has started has.
  abbrev pub Complete : Program sdk services B C Client → Type 0
  Complete p =
      (is_some p.cache ≡ str_eq (env "LAGO_USE_MEMORY_CACHE") "true")
      × CacheReady p.cache
      × Ready sdk services env (is_some p.cache) p.started

  run_processing-Complete :
      (tracer : Option Tracer) (cache : Option (Cached sdk services B C Client))
      (p : Program sdk services B C Client)
      → (is_some cache ≡ str_eq (env "LAGO_USE_MEMORY_CACHE") "true") × CacheReady cache
      → run_processing sdk services B C Client env tracer cache ≡ returns p
      → Complete p
  unfolding run_processing
  run_processing-Complete tracer cache p (asked, ready) h =
      elim (Outcome-cases
        (start_processing_events sdk services env (init_tracer_provider sdk env) (is_some cache))) [
          | inl (e, f) ↦ panics≢returns (rw (f, run_processing) at h)
          | inr (started, f) ↦
              subst (λ (q : Program sdk services B C Client). Complete q)
                (returns-injective (rw (f, run_processing) at h))
                (
                  asked,
                  ready,
                  (start_processing_events-Ready sdk services env (init_tracer_provider sdk env)
                      (is_some cache) started f).1,
                )
        ]

  -- A program that starts has a cache in memory exactly if the environment asks for it. Then
  -- its store is what the goroutines of the snapshot made of the store that was opened, by turns of
  -- theirs after which each had written all its rows, and the six consumers of changes run. The producers and the group answer, with the topics of their variables, and there
  -- is a database exactly if there is no cache.
  pub main-Complete :
      (p : Program sdk services B C Client)
      → main sdk services B C Client env w ≡ returns p
      → Complete p
  unfolding main
  main-Complete p h = elim (Outcome-cases (start_tracing sdk env)) [
    | inl (e, t) ↦ panics≢returns (rw (t, main) at h)
    | inr (tracer, t) ↦ elim (Outcome-cases (use_cache sdk services B C Client env w)) [
      | inl (e, u) ↦ panics≢returns (rw u at (rw (t, main) at h))
      | inr (cache, u) ↦
          run_processing-Complete tracer cache p (use_cache-returns cache u)
            (rw u at (rw (t, main) at h))
    ]
  ]

  -- A program that has started with a cache answers, for each key of each table each of whose rows
  -- with a key the store takes, what it would answer had this table been loaded alone into the store
  -- that was opened, whatever turns the goroutines of the snapshot took.
  pub main-load_table :
      (L : Laws B) (p : Program sdk services B C Client) (c : Cached sdk services B C Client)
      (db : B.Db) (t : Table) (now : ℕ) (k : String)
      → main sdk services B C Client env w ≡ returns p
      → p.cache ≡ some c
      → w.opened ≡ ok db
      → Accepts B L C t now k (w.fetched t).value
      → IsKeyOf t k
      → get_json B (C t) now k c.store
        ≡ get_json B (C t) now k (load_table B C t (w.fetched t) db).1
  main-load_table L p c db t now k h cached opened accepts own =
      let ready : CacheReady (some c) = subst CacheReady cached (main-Complete p h).1 in
      let (first, loading, was_opened, begins, (end, run, waited, store)) = ready.1 in
      let same : first ≡ db = ok-injective (sym was_opened ∙ opened) in
      ap (get_json B (C t) now k) store
      ∙ Run-load_table B L C w.connection w.fetched first loading end t now k begins run (waited t)
          accepts own
      ∙ ap (λ d. get_json B (C t) now k (load_table B C t (w.fetched t) d).1) same
