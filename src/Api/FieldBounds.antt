-- ===== src/Api/FieldBounds.antt =====
-- src/api_types.c: what is read from one field, one message or one list of stop sequences.
use professor_ai.Prelude.{
  ℕ, zero, suc, ◌≤◌, ◌<◌, ◌≡◌, refl, ap, ◌∙◌, ◌⊎◌, inl, inr, true, Option, some, List, [], ◌∷◌,
  length, replicate, arith, Option-cases,
}
use professor_ai.Prelude.Bytes.{Bytes, codes, streq_sound, snprintf_s, length-snprintf}
use professor_ai.Float.{Floats}
use professor_ai.Api.Cjson.{Cjson}
use professor_ai.Api.{ChatMessage, content_max}
use professor_ai.Api.Parse.{
  valid_role, string_or, parse_message, parse_messages, fill_stops, clamp_count,
}
use professor_ai.Api.WellFormed.{IsGood, AllGood, AllFit}

valid_role_known :
    (role : Bytes)
    → valid_role role ≡ true
    → (role ≡ codes "system") ⊎ (role ≡ codes "user") ⊎ (role ≡ codes "assistant")
unfolding valid_role
valid_role_known role h = ground (
  arith,
  streq_sound role (codes "system"),
  streq_sound role (codes "user"),
  streq_sound role (codes "assistant"),
)

known_fits :
    (role : Bytes)
    → (role ≡ codes "system") ⊎ (role ≡ codes "user") ⊎ (role ≡ codes "assistant")
    → snprintf_s 32 role ≡ role
known_fits role (inl e) = rw e
known_fits role (inr (inl e)) = rw e
known_fits role (inr (inr e)) = rw e

pub AllFit-empty : (n : ℕ) → AllFit (replicate n [])
AllFit-empty zero = tt
AllFit-empty (suc n) = (omega arith, AllFit-empty n)

module _ (fl : Floats) (cj : Cjson (fl.D)) where
  open fl use {F, D}
  open cj use {Item, string_value, array_items, get_object_item, parse_with_length}

  pub string_or-lt :
      (n : ℕ) (item : Option Item) (old : Bytes)
      → 0 < n
      → length old < n
      → length (string_or fl cj n item old) < n
  unfolding string_or
  string_or-lt n item old h k = elim (Option-cases (string_value item)) [
    | inl e ↦ rw (e, string_or) k
    | inr (s, e) ↦ rw (e, string_or) (length-snprintf n s h)
  ]

  parse_message_fields :
      (item : Item) (m : ChatMessage)
      → parse_message fl cj item ≡ some m
      → (role : Bytes) × (valid_role role ≡ true)
        × (m.role ≡ snprintf_s 32 role)
        × (m.content
            ≡ string_or fl cj content_max (get_object_item (some item) (codes "content")) [])
  unfolding parse_message
  parse_message_fields item m h =
      elim (Option-cases (string_value (get_object_item (some item) (codes "role")))) [
        | inl e ↦ ground arith
        | inr (role, e) ↦ (role, ground arith, ground arith, ground arith)
      ]

  parse_message-IsGood :
      (item : Item) (m : ChatMessage) → parse_message fl cj item ≡ some m → IsGood m
  parse_message-IsGood item m h =
      let (role, valid, e, c) = parse_message_fields item m h in
      let known = valid_role_known role valid in
      record {
        role_known = rw (e ∙ known_fits role known) known;
        content_fits = rw c (string_or-lt content_max _ [] (omega arith) (omega arith));
      }

  pub parse_messages-AllGood :
      (items : List Item) (ms : List ChatMessage)
      → parse_messages fl cj items ≡ some ms
      → AllGood ms × (length ms ≡ length items)
  unfolding parse_messages
  parse_messages-AllGood [] ms h = ground arith
  parse_messages-AllGood (i ∷ items) ms h = elim (Option-cases (parse_message fl cj i)) [
    | inl e ↦ ground arith
    | inr (m, e) ↦ elim (Option-cases (parse_messages fl cj items)) [
      | inl e' ↦ ground arith
      | inr (more, e') ↦
          ground (arith, parse_message-IsGood i m e, parse_messages-AllGood items more e')
    ]
  ]

  pub fill_stops-AllFit :
      (n : ℕ) (items : List Item)
      → (length (fill_stops fl cj n items) ≡ n) × AllFit (fill_stops fl cj n items)
  unfolding fill_stops
  fill_stops-AllFit zero items = (refl, tt)
  fill_stops-AllFit (suc n) [] =
      let ih = fill_stops-AllFit n [] in (ap suc ih.0, (omega arith, ih.1))
  fill_stops-AllFit (suc n) (s ∷ items) =
      let ih = fill_stops-AllFit n items in
      (ap suc ih.0, (string_or-lt 64 (some s) [] (omega arith) (omega arith), ih.1))

  pub clamp_count-le : (n : ℕ) → clamp_count fl cj n ≤ 4
  unfolding clamp_count
  clamp_count-le n = ground arith
