-- ===== src/Api/WellFormed.antt =====
-- src/api_types.h: the requests that the rest of the daemon may rely on.
use professor_ai.Prelude.{ℕ, ◌≤◌, ◌<◌, ◌≡◌, ◌⊎◌, some, List, [], ◌∷◌, length}
use professor_ai.Prelude.Bytes.{Bytes, codes}
use professor_ai.Api.{ChatMessage, ChatRequest, CompletionRequest, content_max}

-- A message that the daemon may hand to the model.
pub record IsGood (m : ChatMessage) : Type 0 where
  pub role_known :
      (m.role ≡ codes "system") ⊎ (m.role ≡ codes "user") ⊎ (m.role ≡ codes "assistant")
  pub content_fits : length m.content < content_max

abbrev pub AllGood : List ChatMessage → Type 0
AllGood [] = Unit {0}
AllGood (m ∷ ms) = IsGood m × AllGood ms

abbrev pub AllFit : List Bytes → Type 0
AllFit [] = Unit {0}
AllFit (s ∷ ss) = (length s < 64) × AllFit ss

pub record IsWellFormed {F : Type 0} (req : ChatRequest F) : Type 0 where
  pub model_fits : length req.model < 128
  pub list : List ChatMessage
  pub is_list : req.messages ≡ some list
  pub counted : req.message_count ≡ length list
  pub not_empty : 0 < length list
  pub not_many : length list ≤ 64
  pub good : AllGood list
  pub stop_slots : length req.stop ≡ 4
  pub stops_fit : AllFit req.stop
  pub stop_counted : req.stop_count ≤ 4

pub record IsWellFormedCompletion {F : Type 0} (req : CompletionRequest F) : Type 0 where
  pub model_fits : length req.model < 128
  pub prompt_fits : length req.prompt < 65536
  pub stop_slots : length req.stop ≡ 4
  pub stops_fit : AllFit req.stop
  pub stop_counted : req.stop_count ≤ 4

-- The stop sequences of a request, and their count.
abbrev pub StopsOk : List Bytes → ℕ → Type 0
StopsOk stop n = (length stop ≡ 4) × AllFit stop × (n ≤ 4)
