-- ===== src/BasePath.antt =====
-- base_path.go, and the redirect targets that are resolved against the mount point:
-- `resolveRedirect` of application.go and `safeRedirectPath` of application_auth.go.
pub mod Local
pub mod Location
pub mod Cleaning
use howdah.Base.{ℕ, List, [], ◌∷◌, ◌++◌, Bool, true, false, ◌&&◌, not, ◌==◌, nat_eq, if◌then◌else◌}
use howdah.Base.Bytes.{Bytes, bytes, has_prefix}

-- A BasePath is a string.
abbrev pub BasePath : Type 0
BasePath = Bytes

abbrev pub slash : ℕ
slash = b'/'

-- `strings.Trim(s, "/")` drops the leading slashes, then the trailing ones.
unfoldable pub trim_left : Bytes → Bytes
trim_left [] = []
trim_left (c ∷ s) = let rest = trim_left s in if c == slash then rest else c ∷ s

abbrev pub kept : ℕ → Bytes → Bytes
kept c [] = if c == slash then [] else c ∷ []
kept c (d ∷ rest) = c ∷ d ∷ rest

unfoldable pub trim_right : Bytes → Bytes
trim_right [] = []
trim_right (c ∷ s) = kept c (trim_right s)

abbrev pub rooted : Bytes → BasePath
rooted [] = []
rooted (c ∷ s) = slash ∷ c ∷ s

unfoldable pub new_base_path : Bytes → BasePath
unfolding trim_left trim_right
new_base_path prefix = rooted (trim_right (trim_left prefix))

-- `Path`
abbrev pub path : BasePath → Bytes → Bytes
path bp rel = bp ++ rel

unfoldable pub safe_redirect_path : Bytes → Bool
unfolding has_prefix
safe_redirect_path target =
    if not (has_prefix target (bytes "/"))
    then false
    else not (has_prefix target (bytes "//")) && not (has_prefix target (bytes "/\\"))

unfoldable pub resolve_redirect : BasePath → Bytes → Bytes
unfolding safe_redirect_path
resolve_redirect bp target =
    if not (safe_redirect_path target) then path bp (bytes "/") else path bp target
