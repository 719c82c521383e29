-- ===== src/Models/Streaming/All.antt =====
-- A streamed table is read whole, or not at all.
use lago.Prelude.{ℕ, ◌+◌, List, [], ◌∷◌, ◌++◌, Option, none, some, snoc, ◌≡◌, refl, sym, ap, ◌∙◌}
use mathlib.Core.List.{append-nil, append_assoc}
use lago.Utils.Result.{Error, Except, ok, error, Result, success_result, failed_result}
use lago.Models.Streaming.{Rows, stream_loop, stream_rows, append_item, get_all_with_streaming}

-- The rows, if each of them can be read; the first error otherwise.
abbrev pub scan_next : {T : Type 0} → T → Except (List T) → Except (List T)
scan_next item (error e) = error e
scan_next item (ok items) = ok (item ∷ items)

abbrev pub scan_all : {T : Type 0} → List (Except T) → Except (List T)
scan_all [] = ok []
scan_all (error e ∷ rows) = error e
scan_all (ok item ∷ rows) = scan_next item (scan_all rows)

module _ {T : Type 0} where
  -- What `GetAllWithStreaming` has to answer, by what was read and how the iteration ended.
  abbrev pub answer : Except (List T) → Option Error → Result (List T)
  answer (error e) end = failed_result [] e
  answer (ok items) none = success_result items
  answer (ok items) (some e) = failed_result [] e

  finish : (ℕ × Option Error) × List T → Result (List T)
  finish streamed = elim streamed.0.1 [
    | some e ↦ failed_result [] e
    | none ↦ success_result streamed.1
  ]

  prefixed : List T → Except (List T) → Except (List T)
  prefixed seen (error e) = error e
  prefixed seen (ok items) = ok (seen ++ items)

  prefixed-scan_next :
      (seen : List T) (item : T) (r : Except (List T))
      → prefixed (snoc seen item) r ≡ prefixed seen (scan_next item r)
  unfolding prefixed
  prefixed-scan_next seen item (error e) = refl
  prefixed-scan_next seen item (ok items) = ap ok (append_assoc seen (item ∷ []) items)

  finish-stream_loop :
      (rows : List (Except T)) (end : Option Error) (count : ℕ) (seen : List T)
      → finish (stream_loop append_item rows end count seen)
        ≡ answer (prefixed seen (scan_all rows)) end
  unfolding finish stream_loop append_item prefixed
  finish-stream_loop [] none count seen = ap success_result (sym (append-nil seen))
  finish-stream_loop [] (some e) count seen = refl
  finish-stream_loop (error e ∷ rows) end count seen = refl
  finish-stream_loop (ok item ∷ rows) end count seen =
      finish-stream_loop rows end (count + 1) (snoc seen item)
      ∙ ap (λ r. answer r end) (prefixed-scan_next seen item (scan_all rows))

  prefixed-nil : (r : Except (List T)) → prefixed [] r ≡ r
  unfolding prefixed
  prefixed-nil (error e) = refl
  prefixed-nil (ok items) = refl

  -- What it has to answer, by how the query ended.
  abbrev pub answer_of : Rows T → Result (List T)
  answer_of (error e) = failed_result [] e
  answer_of (ok (read, end)) = answer (scan_all read) end

  -- The answer is the rows of the table in their order, if the query, the reading of each row and
  -- the iteration succeed, and the first error otherwise, with no rows.
  pub get_all_with_streaming-scan_all :
      (rows : Rows T) → get_all_with_streaming rows ≡ answer_of rows
  unfolding get_all_with_streaming finish stream_rows
  get_all_with_streaming-scan_all (error e) = refl
  get_all_with_streaming-scan_all (ok (read, end)) =
      finish-stream_loop read end 0 [] ∙ ap (λ r. answer r end) (prefixed-nil (scan_all read))
