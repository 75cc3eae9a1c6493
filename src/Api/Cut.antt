-- ===== src/Api/Cut.antt =====
-- src/api_types.c: a prompt that is longer than its array.
use professor_ai.Prelude.{
  ◌<◌, ◌≡◌, ◌≢◌, refl, ap, sym, ◌∙◌, inl, inr, true, some, take, length, length-take, arith,
  Option-cases,
}
use professor_ai.Prelude.Bytes.{Bytes, codes}
use professor_ai.Float.{Floats}
use professor_ai.Api.{CompletionRequest}
use professor_ai.Api.Cjson.{Cjson}
use professor_ai.Api.Parse.{completion_request_parse, completion_stops, completion_options}

module _ (fl : Floats) (cj : Cjson fl.D) where
  open fl use {F}
  open cj use {Item, parse_with_length, get_object_item, string_value, array_items}

  completion_stops-prompt :
      (root : Item) (req : CompletionRequest F)
      → (completion_stops fl cj root (completion_options fl cj root req)).prompt ≡ req.prompt
  unfolding completion_stops completion_options
  completion_stops-prompt root req =
      elim (Option-cases (array_items (get_object_item (some root) (codes "stop")))) [
        | inl e ↦ rw (e, completion_stops) refl
        | inr (items, e) ↦ rw (e, completion_stops) refl
      ]

  -- A completion request whose prompt has 65536 bytes or more is accepted, and its prompt is cut to the
  -- first 65535.
  pub long_prompt_cut :
      (json : Bytes) (root : Item) (p : Bytes)
      → parse_with_length json ≡ some root
      → string_value (get_object_item (some root) (codes "prompt")) ≡ some p
      → 65535 < length p
      → ((completion_request_parse fl cj json).1 ≡ true)
        × ((completion_request_parse fl cj json).0.prompt ≡ take 65535 p)
        × ((completion_request_parse fl cj json).0.prompt ≢ p)
  unfolding completion_request_parse
  long_prompt_cut json root p parses is_text long =
      let cut : (completion_request_parse fl cj json).0.prompt ≡ take 65535 p =
        rw (parses, is_text, completion_request_parse) (completion_stops-prompt root _) in
      (
        rw (parses, is_text, completion_request_parse) refl,
        cut,
        λ same. absurd (omega (arith, ap length (sym cut ∙ same), length-take {0} 65535 p, long)),
      )
