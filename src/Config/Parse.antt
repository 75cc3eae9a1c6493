-- ===== src/Config/Parse.antt =====
-- src/config.c: the file and the command line of the configuration. The C library's `isspace`,
-- `strtol`, `strtok_r` and `fgets` are modelled as far as they are used; `strtof` is the floats'.
use professor_ai.Prelude.{
  ℕ, suc, ◌+◌, ◌-◌, ◌*◌, ◌%◌, ◌^◌, ◌<◌, ◌≡◌, refl, arith, Bool, true, false, not, ◌||◌, ◌&&◌, List,
  [], ◌∷◌, ◌++◌, if◌then◌else◌, ◌==◌, ltb, leb, length,
}
use professor_ai.Prelude.Int.{ℤ, pos, negsuc}
use professor_ai.Prelude.Bytes.{Bytes, codes, snprintf_s}
use professor_ai.Float.{Floats}
use professor_ai.Config.{Config, path_max, addr_max, name_max, key_max, acl_max}

unfoldable pub is_space : ℕ → Bool
is_space c = c == 32 || (leb 9 c && leb c 13)

unfoldable pub is_nil : Bytes → Bool
is_nil [] = true
is_nil (c ∷ s) = false

-- The two loops of `trim`.
unfoldable pub trim_start : Bytes → Bytes
trim_start [] = []
trim_start (c ∷ s) = let rest = trim_start s in if is_space c then rest else c ∷ s

unfoldable pub trim_end : Bytes → Bytes
unfolding is_nil
trim_end [] = []
trim_end (c ∷ s) = let rest = trim_end s in if is_nil rest && is_space c then [] else c ∷ rest

unfoldable pub trim : Bytes → Bytes
trim s = trim_end (trim_start s)

-- The digits that `strtol` reads.
unfoldable pub digits : ℕ → Bytes → ℕ
digits n [] = n
digits n (c ∷ s) =
    let rest = digits (n * 10 + (c - 48)) s in if leb 48 c && leb c 57 then rest else n

-- The value of `strtol(value, NULL, 10)`, a 64-bit `long`.
unfoldable pub long_of : Bytes → ℤ
unfolding digits
long_of [] = pos 0
long_of (c ∷ s) =
    let limit = 2 ^ 63 in
    let n = digits 0 (if c == 45 || c == 43 then s else c ∷ s) in
    if c == 45
    then (if n == 0 then pos 0 else negsuc ((if ltb limit n then limit else n) - 1))
    else pos (if leb limit n then limit - 1 else n)

unfoldable pub strtol_long : Bytes → ℤ
strtol_long s = long_of (trim_start s)

-- The cast to `int32_t`.
unfoldable pub to_int32 : ℤ → ℤ
to_int32 v =
    let word : ℕ = elim v [ pos n ↦ n % 2 ^ 32 | negsuc n ↦ (2 ^ 32 - suc n % 2 ^ 32) % 2 ^ 32 ] in
    if ltb word (2 ^ 31) then pos word else negsuc (2 ^ 32 - 1 - word)

pub to_int32-pos : (n : ℕ) → n < 2 ^ 31 → to_int32 (pos n) ≡ pos n
unfolding to_int32
to_int32-pos n small =
    let same : n % 2 ^ 32 ≡ n = omega arith in
    let fits : ltb n (2 ^ 31) ≡ true = ground arith in rw (same, fits) refl

unfoldable pub strtol : Bytes → ℤ
unfolding strtol_long to_int32
strtol s = to_int32 (strtol_long s)

-- The tokens of `strtok_r(buf, ",")`: those that are not empty.
unfoldable pub split_commas : Bytes → Bytes × List Bytes
split_commas [] = ([], [])
split_commas (c ∷ s) =
    let (first, others) = split_commas s in
    if c == 44 then ([], first ∷ others) else (c ∷ first, others)

unfoldable pub not_empty : List Bytes → List Bytes
not_empty [] = []
not_empty (s ∷ ss) = let rest = not_empty ss in if is_nil s then rest else s ∷ rest

unfoldable pub tokens : Bytes → List Bytes
unfolding split_commas not_empty
tokens s = let (first, others) = split_commas s in not_empty (first ∷ others)

-- The loop over the tokens: a full list takes no more.
unfoldable pub add_ips : List Bytes → List Bytes → List Bytes
add_ips [] acl = acl
add_ips (t ∷ ts) acl =
    let ip = trim t in
    let next =
      if ltb (length acl) acl_max && not (is_nil ip)
      then acl ++ snprintf_s addr_max ip ∷ []
      else acl in
    add_ips ts next

unfoldable pub add_list : Bytes → List Bytes → List Bytes
add_list value acl = add_ips (tokens (snprintf_s 1024 value)) acl

-- The fields that a key or an option sets.
pub data Setting : Type 0 where
  model_path model_alias n_ctx n_gpu_layers n_batch n_threads : Setting
  temperature top_p top_k repeat_penalty max_tokens : Setting
  listen_addr api_key max_inference_seconds stats_interval daemonize : Setting
  pid_file log_level log_file allow_ip config_file : Setting

module _ (fl : Floats) where
  open fl use {F, strtof}

  -- The body of one branch.
  unfoldable pub assign : Setting → Bytes → Config F → Config F
  assign model_path v cfg = record cfg { model_path = snprintf_s path_max v }
  assign model_alias v cfg = record cfg { model_alias = snprintf_s name_max v }
  assign n_ctx v cfg = record cfg { n_ctx = strtol v }
  assign n_gpu_layers v cfg = record cfg { n_gpu_layers = strtol v }
  assign n_batch v cfg = record cfg { n_batch = strtol v }
  assign n_threads v cfg = record cfg { n_threads = strtol v }
  assign temperature v cfg = record cfg { temperature = strtof v }
  assign top_p v cfg = record cfg { top_p = strtof v }
  assign top_k v cfg = record cfg { top_k = strtol v }
  assign repeat_penalty v cfg = record cfg { repeat_penalty = strtof v }
  assign max_tokens v cfg = record cfg { max_tokens = strtol v }
  assign listen_addr v cfg = record cfg { listen_addr = snprintf_s addr_max v }
  assign api_key v cfg = record cfg { api_key = snprintf_s key_max v }
  assign max_inference_seconds v cfg = record cfg { max_inference_seconds = strtol v }
  assign stats_interval v cfg = record cfg { stats_interval = strtol v }
  assign daemonize v cfg = record cfg { daemonize = strtol v }
  assign pid_file v cfg = record cfg { pid_file = snprintf_s path_max v }
  assign log_level v cfg = record cfg { log_level = strtol v }
  assign log_file v cfg = record cfg { log_file = snprintf_s path_max v }
  assign allow_ip v cfg = record cfg { acl = add_list v cfg.acl }
  assign config_file v cfg = record cfg { config_file = snprintf_s path_max v }

  -- `config_defaults`
  unfoldable pub config_defaults : Config F
  config_defaults = record {
    model_path = [];
    model_alias = codes "local-model";
    n_ctx = pos 4096;
    n_gpu_layers = pos 99;
    n_batch = pos 2048;
    n_threads = pos 0;
    temperature = fl.default_temperature;
    top_p = fl.default_top_p;
    top_k = pos 40;
    repeat_penalty = fl.default_repeat_penalty;
    max_tokens = pos 512;
    listen_addr = codes "127.0.0.1:8080";
    api_key = [];
    acl = [];
    max_inference_seconds = pos 300;
    stats_interval = pos 60;
    daemonize = pos 0;
    pid_file = codes "/run/professord/professord.pid";
    log_level = pos 2;
    log_file = [];
    config_file = [];
  }
