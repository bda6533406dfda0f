-- ===== src/BasePath/Location.antt =====
-- The Location that http.Redirect of the standard library writes for an address: one that url.Parse
-- finds to have no scheme and no host is cleaned as a path, and bytes outside ASCII are escaped. The
-- addresses here begin with a slash or are another host's; a relative one is not among them. `parses`
-- says where url.Parse succeeds and finds neither a scheme nor a host.
use howdah.Base.{ℕ, List, [], ◌∷◌, ◌++◌, Bool, false, ◌||◌, ◌==◌, nat_eq, ltb, if◌then◌else◌}
use howdah.Base.Bytes.{Bytes, bytes, bytes_eq}
use howdah.Encoding.Hex.{hex}
use howdah.BasePath.{slash}

abbrev pub prepend : ℕ → List Bytes → List Bytes
prepend c [] = (c ∷ []) ∷ []
prepend c (segment ∷ segments) = (c ∷ segment) ∷ segments

-- The texts between the slashes.
unfoldable pub split_slashes : Bytes → List Bytes
split_slashes [] = [] ∷ []
split_slashes (c ∷ s) =
    let rest = split_slashes s in if c == slash then [] ∷ rest else prepend c rest

abbrev pub outer : List Bytes → List Bytes
outer [] = []
outer (segment ∷ kept) = kept

-- `kept` has the segments so far, the last one first.
abbrev pub enter : List Bytes → Bytes → List Bytes
enter kept segment =
    if segment == [] || segment == bytes "."
    then kept
    else if segment == bytes ".."
    then outer kept
    else segment ∷ kept

unfoldable pub resolve_dots : List Bytes → List Bytes → List Bytes
resolve_dots kept [] = kept
resolve_dots kept (segment ∷ segments) = resolve_dots (enter kept segment) segments

unfoldable pub join_slashes : List Bytes → Bytes
join_slashes [] = []
join_slashes (segment ∷ kept) = join_slashes kept ++ slash ∷ segment

abbrev pub or_root : Bytes → Bytes
or_root [] = slash ∷ []
or_root (c ∷ s) = c ∷ s

-- path.Clean of a path that begins with a slash.
unfoldable pub clean : Bytes → Bytes
unfolding split_slashes resolve_dots join_slashes
clean p = or_root (join_slashes (resolve_dots [] (split_slashes p)))

unfoldable pub ends_with_slash : Bytes → Bool
ends_with_slash [] = false
ends_with_slash (c ∷ []) = c == slash
ends_with_slash (c ∷ d ∷ s) = ends_with_slash (d ∷ s)

-- The path, and the query with its question mark.
unfoldable pub cut_query : Bytes → Bytes × Bytes
cut_query [] = ([], [])
cut_query (c ∷ s) =
    let (front, query) = cut_query s in if c == b'?' then ([], c ∷ s) else (c ∷ front, query)

abbrev pub with_slash : Bool → Bytes → Bytes
with_slash trailing p = if trailing then (if ends_with_slash p then p else p ++ slash ∷ []) else p

unfoldable pub cleaned : Bytes × Bytes → Bytes
unfolding clean ends_with_slash
cleaned (p, query) = with_slash (ends_with_slash p) (clean p) ++ query

unfoldable pub escape_non_ascii : Bytes → Bytes
unfolding hex
escape_non_ascii [] = []
escape_non_ascii (c ∷ s) =
    let rest = escape_non_ascii s in if ltb c 128 then c ∷ rest else b'%' ∷ (hex (c ∷ []) ++ rest)

unfoldable pub location : (Bytes → Bool) → Bytes → Bytes
unfolding cut_query escape_non_ascii cleaned
location parses url = escape_non_ascii (if parses url then cleaned (cut_query url) else url)
