-- ===== src/Recommend/Sources.antt =====
-- The readers of src/recommend.c: one-line files, and files of "key: value" lines. The file system is a
-- parameter.
use professor_ai.Prelude.Text.{chop}
use professor_ai.Prelude.{
  ℕ, ◌-◌, Bool, ◌||◌, Option, none, some, List, [], ◌∷◌, if◌then◌else◌, ◌==◌, length, drop,
}
use professor_ai.Prelude.Int.{ℤ, pos, negsuc, ◌*ℤ◌}
use professor_ai.Prelude.Bytes.{Bytes, codes, has_prefix, snprintf_s}
use professor_ai.Config.Parse.{strtol_long}
use professor_ai.Config.Load.{lines}

-- `fopen`, `opendir` with `readdir`, and `stat`, by path.
pub record Machine : Type 0 where
  pub file : Bytes → Option Bytes
  pub entries : Bytes → Option (List Bytes)
  pub has_node : Bytes → Bool

unfoldable pub first_line : ℕ → Option Bytes → Option Bytes
first_line size none = none
first_line size (some text) = elim (lines size 0 text) [ [] ↦ none | l ∷ ls ↦ some l ]

-- `while (*val == ' ' || *val == ':' || *val == '\t') val++`
unfoldable pub skip_sep : Bytes → Bytes
skip_sep [] = []
skip_sep (c ∷ s) = let rest = skip_sep s in if c == 32 || c == 58 || c == 9 then rest else c ∷ s

unfoldable pub field_of : Bytes → List Bytes → Option Bytes
unfolding chop skip_sep
field_of key [] = none
field_of key (l ∷ ls) =
    let rest = field_of key ls in
    if has_prefix key l then some (chop (skip_sep (drop (length key) l))) else rest

module _ (m : Machine) where
  open m use {file, entries, has_node}

  unfoldable pub read_sysfs_int64 : Bytes → ℤ
  unfolding first_line
  read_sysfs_int64 path = elim (first_line 63 (file path)) [
    | none ↦ negsuc 0
    | some l ↦ strtol_long l
  ]

  -- With `out_len`; nothing is written where it fails.
  unfoldable pub read_sysfs_str : Bytes → ℕ → Option Bytes
  unfolding first_line chop
  read_sysfs_str path size = elim (first_line (size - 1) (file path)) [
    | none ↦ none
    | some l ↦ some (chop l)
  ]

  unfoldable pub read_proc_field : Bytes → Bytes → ℕ → Option Bytes
  unfolding field_of
  read_proc_field path key size = elim (file path) [
    | none ↦ none
    | some text ↦ elim (field_of key (lines 511 0 text)) [
      | none ↦ none
      | some v ↦ some (snprintf_s size v)
    ]
  ]

  unfoldable pub read_proc_meminfo_kb : Bytes → ℤ
  unfolding read_proc_field
  read_proc_meminfo_kb key = elim (read_proc_field (codes "/proc/meminfo") key 64) [
    | none ↦ negsuc 0
    | some v ↦ strtol_long v *ℤ pos 1024
  ]
