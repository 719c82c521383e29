-- ===== src/Cache/Opening/Starting.antt =====
-- Which consumers of changes run.
use lago.Prelude.{
  String, cat, List, [], ◌∷◌, ◌++◌, Option, none, some, ◌≡◌, ◌⊎◌, inl, inr, refl, ap,
}
use lago.Utils.Result.{Error, Except, ok, error, Except-cases}
use lago.Utils.Env.{Env}
use lago.Cache.Store.{Badger, Codec}
use lago.Cache.Loading.{Table, Row, stored}
use lago.Cache.Opening.{
  wrap, ChangeOpt, consumer_name, consumers, start_consumer, start_consumers, consume_changes,
}

module _ (B : Badger) (C : (t : Table) → Codec B.Bytes (Row t) (stored t)) (Client : Type 0)
    (new_client : List ChangeOpt → Except Client) (uuid : Table → String) (env : Env)
    (topic_prefix : String) where
  -- The consumers of the tables, each started.
  pub data Started : List Table → List (Table × Client) → Type 0 where
    nothing : Started [] []
    one_more :
        {t : Table} {client : Client} {ts : List Table} {running : List (Table × Client)}
        → start_consumer B C Client new_client uuid env topic_prefix t ≡ ok client
        → Started ts running
        → Started (t ∷ ts) ((t, client) ∷ running)

  -- All consumers run, or those in front of the first that cannot be started.
  abbrev pub Outcomes : List Table → List (Table × Client) × Option Error → Type 0
  Outcomes ts (running, err) =
      ((err ≡ none) × Started ts running)
      ⊎ ((before : List Table) × (t : Table) × (after : List Table) × (e : Error) × (ts
            ≡ before ++ t ∷ after)
          × (start_consumer B C Client new_client uuid env topic_prefix t ≡ error e)
          × (err ≡ some (wrap (cat "failed to start " (cat (consumer_name t) " consumer")) e))
          × Started before running)

  start_consumers-Outcomes :
      (ts : List Table)
      → Outcomes ts (start_consumers B C Client new_client uuid env topic_prefix ts)
  unfolding start_consumers
  start_consumers-Outcomes [] = inl (refl, nothing)
  start_consumers-Outcomes (t ∷ ts) =
      elim (Except-cases (start_consumer B C Client new_client uuid env topic_prefix t)) [
        | inl (e, h) ↦ rw (h, start_consumers) (inr ([], t, ts, e, refl, h, refl, nothing))
        | inr (client, h) ↦ elim (start_consumers-Outcomes ts) [
          | inl (fine, running) ↦ rw (h, start_consumers) (inl (fine, one_more h running))
          | inr (before, u, after, e, split, fails, err, running) ↦
              rw (h, start_consumers)
                (inr (
                  t ∷ before,
                  u,
                  after,
                  e,
                  ap {B = List Table} (λ l. t ∷ l) split,
                  fails,
                  err,
                  one_more h running,
                ))
        ]
      ]

  -- The six consumers are started in order. If none fails there is no error and all of them run; if
  -- one fails, its error names it, those in front of it run, and no other one.
  pub consume_changes-Outcomes :
      Outcomes consumers (consume_changes B C Client new_client uuid env topic_prefix)
  unfolding consume_changes
  consume_changes-Outcomes = start_consumers-Outcomes consumers
