-- ===== src/Api/CompletionBounds.antt =====
-- src/api_types.c: what `completion_request_parse` guarantees, whatever the client sent.
use professor_ai.Prelude.{◌≡◌, refl, inl, inr, true, some, [], length, arith, Option-cases}
use professor_ai.Prelude.Bytes.{Bytes, codes, snprintf_s, length-snprintf}
use professor_ai.Float.{Floats}
use professor_ai.Api.Cjson.{Cjson}
use professor_ai.Api.{CompletionRequest}
use professor_ai.Api.Parse.{
  string_or, completion_request_parse, completion_options, completion_stops, fresh_completion,
}
use professor_ai.Api.WellFormed.{IsWellFormedCompletion, StopsOk}
use professor_ai.Api.FieldBounds.{AllFit-empty, string_or-lt, fill_stops-AllFit, clamp_count-le}

module _ (fl : Floats) (cj : Cjson (fl.D)) where
  open fl use {F, D}
  open cj use {Item, string_value, array_items, get_object_item, parse_with_length}

  completion_stops-lem :
      (root : Item) (req : CompletionRequest F)
      → StopsOk req.stop req.stop_count
      → StopsOk (completion_stops fl cj root req).stop (completion_stops fl cj root req).stop_count
        × ((completion_stops fl cj root req).model ≡ req.model)
        × ((completion_stops fl cj root req).prompt ≡ req.prompt)
  unfolding completion_stops
  completion_stops-lem root req h =
      elim (Option-cases (array_items (get_object_item (some root) (codes "stop")))) [
        | inr (items, e) ↦
            let f = fill_stops-AllFit fl cj 4 items in
            rw (e, completion_stops) ((f.0, f.1, clamp_count-le fl cj (length items)), refl, refl)
        | inl e ↦ rw (e, completion_stops) (h, refl, refl)
      ]

  -- The request that the options and stop sequences are read into.
  abbrev prompted : Item → Bytes → CompletionRequest F
  unfolding fresh_completion
  prompted root prompt = record (fresh_completion fl cj) {
    model = string_or fl cj 128 (get_object_item (some root) (codes "model")) [];
    prompt = snprintf_s 65536 prompt;
  }

  prompted-IsWellFormed :
      (root : Item) (prompt : Bytes)
      → IsWellFormedCompletion
          (completion_stops fl cj root (completion_options fl cj root (prompted root prompt)))
  unfolding completion_options fresh_completion
  prompted-IsWellFormed root prompt =
      let options = completion_options fl cj root (prompted root prompt) in
      let l = completion_stops-lem root options (refl, AllFit-empty 4, omega arith) in
      record {
        model_fits = rw l.1 (
            string_or-lt fl cj 128 (get_object_item (some root) (codes "model")) [] (omega arith)
              (omega arith));
        prompt_fits = rw l.2 (length-snprintf 65536 prompt (omega arith));
        stop_slots = l.0.0;
        stops_fit = l.0.1;
        stop_counted = l.0.2;
      }

  -- A completion request that is accepted has strings that fit, and at most 4 stop sequences.
  pub completion_request_parse-IsWellFormed :
      (json : Bytes) (req : CompletionRequest F)
      → completion_request_parse fl cj json ≡ (req, true)
      → IsWellFormedCompletion req
  unfolding completion_request_parse fresh_completion
  completion_request_parse-IsWellFormed json req h = elim (Option-cases (parse_with_length json)) [
    | inl e ↦ ground arith
    | inr (root, e) ↦
        elim (Option-cases (string_value (get_object_item (some root) (codes "prompt")))) [
          | inl e' ↦ ground arith
          | inr (prompt, e') ↦
              let eq : completion_stops fl cj root
                    (completion_options fl cj root (prompted root prompt))
                  ≡ req =
                ground arith in
              rw (← eq) (prompted-IsWellFormed root prompt)
        ]
  ]
