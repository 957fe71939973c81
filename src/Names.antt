-- ===== src/Names.antt =====
-- common/utils/normalize-name.ts: names that differ in white space or case only are the same name.
pub mod Words
pub mod Digits
use restosync_api.Base.{Bool, true, false, not, ◌&&◌, List, [], ◌∷◌, if◌then◌else◌}
use restosync_api.Base.Text.{Text, is_space, same_text}
use restosync_api.World.{Env}

unfoldable pub trim_start : Text → Text
trim_start [] = []
trim_start (c ∷ s) = let rest = trim_start s in if is_space c then rest else c ∷ s

abbrev pub is_empty : Text → Bool
is_empty [] = true
is_empty (c ∷ s) = false

unfoldable pub trim_end : Text → Text
trim_end [] = []
trim_end (c ∷ s) = let rest = trim_end s in if is_space c && is_empty rest then [] else c ∷ rest

-- `s.trim()`
unfoldable pub trim : Text → Text
unfolding trim_start trim_end
trim s = trim_end (trim_start s)

-- `s.replace(/\s+/g, ' ')`; the flag says whether the character before was white space too.
unfoldable pub collapse : Bool → Text → Text
collapse in_run [] = []
collapse in_run (c ∷ s) =
    let in_space = collapse true s in
    let in_word = collapse false s in
    if is_space c then (if in_run then in_space else 32 ∷ in_space) else c ∷ in_word

unfoldable pub normalize_name : Env → Text → Text
unfolding trim collapse
normalize_name env name = env.to_lower_case (collapse false (trim name))

-- `normalizeName(a) === normalizeName(b)`
unfoldable pub same_name : Env → Text → Text → Bool
same_name env a b = same_text (normalize_name env a) (normalize_name env b)
